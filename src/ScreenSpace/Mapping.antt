-- ===== src/ScreenSpace/Mapping.antt =====
-- The proportional mapping of crates/tailkvm-win32/src/screen_space.rs: range, order and ends.
use tail_kvm.Base.{◌+◌, ◌^◌, ◌≤◌, ◌≡◌, arith}
use tail_kvm.Base.Int.{ℤ, pos, pos_part, neg_part, ◌≤ℤ◌, ◌+ℤ◌, +ℤ_parts, eq_of_parts}
use tail_kvm.Base.I32.{IsI32, IsCoord, add_i32, sub_i32, max_i32, sub_i32_parts, i32_laws}
use tail_kvm.Float.{F64, IsIeee}
use tail_kvm.Float.Ratio.{unit_ratio, scale, image_bounds, image_mono, image_start, image_end}
use tail_kvm.ScreenSpace.Types.{Rect, width, height, map_ratio}
use tail_kvm.ScreenSpace.Combined

-- A screen with at least one pixel, at coordinates whose sums fit an i32.
pub record IsScreen (r : Rect) : Type 0 where
  pub left_fits : IsCoord r.left
  pub top_fits : IsCoord r.top
  pub right_fits : IsCoord r.right
  pub bottom_fits : IsCoord r.bottom
  pub wide : r.left +ℤ pos 1 ≤ℤ r.right
  pub tall : r.top +ℤ pos 1 ≤ℤ r.bottom

-- A cursor coordinate after one delta.
abbrev pub IsNear : ℤ → Type 0
IsNear a = (neg_part a ≤ pos_part a + 2 ^ 29) × (pos_part a ≤ neg_part a + 2 ^ 29)

-- `width` and `height` are the exact differences, in the form that `omega` reads.
pub width_parts :
    (r : Rect)
    → IsScreen r
    → pos_part (width r) + pos_part r.left + neg_part r.right
      ≡ neg_part (width r) + neg_part r.left + pos_part r.right
unfolding width
width_parts r h = ground (arith, sub_i32_parts r.right r.left, +ℤ_parts r.left (pos 1))

pub height_parts :
    (r : Rect)
    → IsScreen r
    → pos_part (height r) + pos_part r.top + neg_part r.bottom
      ≡ neg_part (height r) + neg_part r.top + pos_part r.bottom
unfolding height
height_parts r h = ground (arith, sub_i32_parts r.bottom r.top, +ℤ_parts r.top (pos 1))

-- The length less one, as the code computes it.
abbrev pub last : ℤ → ℤ
last n = max_i32 (sub_i32 n (pos 1)) (pos 0)

abbrev pub IsLength : ℤ → Type 0
IsLength n = (pos 1 ≤ℤ n) × (pos_part n ≤ neg_part n + 2 ^ 29)

pub IsScreen-IsLength : (r : Rect) → IsScreen r → IsLength (width r) × IsLength (height r)
IsScreen-IsLength r h = omega (i32_laws, width_parts r h, height_parts r h)

last_parts :
    (n : ℤ)
    → IsLength n
    → (pos_part (last n) + neg_part n + 1 ≡ neg_part (last n) + pos_part n)
      × (pos 0 ≤ℤ last n)
      × IsI32 (last n)
last_parts n h = ground (arith, sub_i32_parts n (pos 1))

-- The two mappings agree on a length of at least 1, where the floor changes nothing.
pub map_ratio-map_ratio :
    (o : F64) (value from_lo from_len to_lo to_len : ℤ)
    → pos 1 ≤ℤ from_len
    → map_ratio o value from_lo from_len to_lo to_len
      ≡ Combined.map_ratio o value from_lo from_len to_lo to_len
unfolding map_ratio Combined.map_ratio
map_ratio-map_ratio o value from_lo from_len to_lo to_len h = rw (floor_one from_len h)
  where
    floor_one : (n : ℤ) → pos 1 ≤ℤ n → max_i32 n (pos 1) ≡ n
    floor_one n k = ground (arith, eq_of_parts n (pos 1))

-- An offset into a range of the given length stays in it.
place_bounds :
    (lo len offset : ℤ)
    → IsCoord lo
    → IsLength len
    → pos 0 ≤ℤ offset
    → offset ≤ℤ last len
    → (lo ≤ℤ add_i32 lo offset) × (add_i32 lo offset +ℤ pos 1 ≤ℤ lo +ℤ len)
place_bounds lo len offset hl hn low high = omega (i32_laws, last_parts len hn)

place_mono :
    (lo len a b : ℤ)
    → IsCoord lo
    → IsLength len
    → pos 0 ≤ℤ a
    → b ≤ℤ last len
    → a ≤ℤ b
    → add_i32 lo a ≤ℤ add_i32 lo b
place_mono lo len a b hl hn low high le = omega (i32_laws, last_parts len hn)

place_last : (lo len : ℤ) → IsCoord lo → IsLength len → add_i32 lo (last len) +ℤ pos 1 ≡ lo +ℤ len
place_last lo len hl hn =
    omega (i32_laws, last_parts len hn, eq_of_parts (add_i32 lo (last len) +ℤ pos 1) (lo +ℤ len))

add_i32_zero : (a : ℤ) → IsCoord a → add_i32 a (pos 0) ≡ a
add_i32_zero a h = omega (i32_laws, eq_of_parts (add_i32 a (pos 0)) a)

module _ (o : F64) (law : IsIeee o) where
  -- For coordinates and lengths in range and floats that obey IEEE 754, map_ratio answers a pixel
  -- of the target edge.
  pub map_ratio_bounds :
      (value from_lo from_len to_lo to_len : ℤ)
      → IsNear value
      → IsCoord from_lo
      → IsLength from_len
      → IsCoord to_lo
      → IsLength to_len
      → let m = Combined.map_ratio o value from_lo from_len to_lo to_len in
        (to_lo ≤ℤ m) × (m +ℤ pos 1 ≤ℤ to_lo +ℤ to_len)
  unfolding Combined.map_ratio
  map_ratio_bounds value from_lo from_len to_lo to_len hv hl hn ht hm =
      let inside =
        image_bounds o law (sub_i32 value from_lo) from_len (last to_len) (omega i32_laws)
          (omega arith) (last_parts to_len hm).2 hn.0 (last_parts to_len hm).1 in
      place_bounds to_lo to_len
        (scale o (unit_ratio o (sub_i32 value from_lo) from_len) (last to_len)) ht hm inside.0
        inside.1

  -- For coordinates and lengths in range and floats that obey IEEE 754, map_ratio keeps the order
  -- of positions along the edge.
  pub map_ratio_mono :
      (v w from_lo from_len to_lo to_len : ℤ)
      → IsNear v
      → IsNear w
      → IsCoord from_lo
      → IsLength from_len
      → IsCoord to_lo
      → IsLength to_len
      → v ≤ℤ w
      → Combined.map_ratio o v from_lo from_len to_lo to_len
        ≤ℤ Combined.map_ratio o w from_lo from_len to_lo to_len
  unfolding Combined.map_ratio
  map_ratio_mono v w from_lo from_len to_lo to_len hv hw hl hn ht hm le =
      let (same, low, fits) = last_parts to_len hm in
      let a : ℤ = sub_i32 v from_lo in
      let b : ℤ = sub_i32 w from_lo in
      place_mono to_lo to_len (scale o (unit_ratio o a from_len) (last to_len))
        (scale o (unit_ratio o b from_len) (last to_len)) ht hm
        (image_bounds o law a from_len (last to_len) (omega i32_laws) (omega arith) fits hn.0 low).0
        (image_bounds o law b from_len (last to_len) (omega i32_laws) (omega arith) fits hn.0 low).1
        (image_mono o law a b from_len (last to_len) (omega i32_laws) (omega i32_laws) (omega arith)
          fits hn.0 low (omega i32_laws))

  -- The start of the edge goes to the start, and what is past its end to the last pixel.
  pub map_ratio_start :
      (from_lo from_len to_lo to_len : ℤ)
      → IsCoord from_lo
      → IsLength from_len
      → IsCoord to_lo
      → IsLength to_len
      → Combined.map_ratio o from_lo from_lo from_len to_lo to_len ≡ to_lo
  unfolding Combined.map_ratio
  map_ratio_start from_lo from_len to_lo to_len hl hn ht hm =
      let (same, low, fits) = last_parts to_len hm in
      rw
        (
          image_start o law (sub_i32 from_lo from_lo) from_len (last to_len) (omega i32_laws)
              (omega arith) fits hn.0 low (omega i32_laws),
          Combined.map_ratio,
        )
        (add_i32_zero to_lo ht)

  pub map_ratio_end :
      (v from_lo from_len to_lo to_len : ℤ)
      → IsNear v
      → IsCoord from_lo
      → IsLength from_len
      → IsCoord to_lo
      → IsLength to_len
      → from_lo +ℤ from_len ≤ℤ v
      → Combined.map_ratio o v from_lo from_len to_lo to_len +ℤ pos 1 ≡ to_lo +ℤ to_len
  unfolding Combined.map_ratio
  map_ratio_end v from_lo from_len to_lo to_len hv hl hn ht hm past =
      let (same, low, fits) = last_parts to_len hm in
      rw
        (
          image_end o law (sub_i32 v from_lo) from_len (last to_len) (omega i32_laws) (omega arith)
              fits hn.0 low (omega i32_laws),
          Combined.map_ratio,
        )
        (place_last to_lo to_len ht hm)
