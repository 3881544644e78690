-- ===== src/Core/Geometry/Entry.antt =====
-- Where the remote cursor enters.
use Prim.Native.String.{String}
use tail_kvm.Base.{◌/◌, ap, ◌≡◌, true, arith}
use tail_kvm.Base.Int.{ℤ, pos, negsuc, ◌≤ℤ◌, ◌+ℤ◌, +ℤ_parts}
use tail_kvm.Base.I32.{IsI32, IsCoord, sub_i32, max_i32, sub_i32_parts, leb_ℤ, i32_laws}
use tail_kvm.Float.{F64, IsIeee}
use tail_kvm.Float.Ratio.{unit_ratio, scale, image_bounds}
use tail_kvm.Core.Geometry.{
  Point, Rect, Label, label_of, floored, high_edge, at_return_edge, is_remote_return_edge, half_i32,
  along, entry, remote_entry_position,
}
use tail_kvm.Core.Geometry.Return.{IsIn}

-- A remote screen with room for the entry inset of 4.
abbrev pub IsRemote : ℤ → Type 0
IsRemote n = IsCoord n × (pos 5 ≤ℤ n)

-- The position and the local rectangle hold numbers whose differences fit.
pub record IsExit (p : Point) (r : Rect) : Type 0 where
  pub x_fits : IsCoord p.x
  pub y_fits : IsCoord p.y
  pub left_fits : IsCoord r.left
  pub top_fits : IsCoord r.top
  pub width_fits : IsI32 r.width
  pub height_fits : IsI32 r.height

module _ (o : F64) (law : IsIeee o) where
  along-scale :
      (offset size length : ℤ)
      → along o offset size length
        ≡ scale o (unit_ratio o offset (max_i32 size (pos 1))) (sub_i32 length (pos 1))
  unfolding along scale
  along-scale offset size length = ap o.round_i32 (
      law.mul_comm (o.of_i32 (sub_i32 length (pos 1))) (unit_ratio o offset (max_i32 size (pos 1))))

  along_bounds :
      (offset size length : ℤ)
      → IsI32 offset
      → IsI32 size
      → IsRemote length
      → (pos 0 ≤ℤ along o offset size length) × (along o offset size length +ℤ pos 1 ≤ℤ length)
  along_bounds offset size length ho hs hl =
      let n : ℤ = sub_i32 length (pos 1) in
      rw (along-scale offset size length) (
        omega (
          i32_laws,
          image_bounds o law offset (max_i32 size (pos 1)) n ho (ground arith) (omega i32_laws)
              (ground arith) (omega i32_laws),
        ))

  high_entry :
      (n m : ℤ)
      → IsRemote n
      → IsCoord m
      → high_edge (sub_i32 (sub_i32 n (pos 1)) (pos 4)) (max_i32 n (pos 1)) (floored m) ≡ true
  high_entry n m hn hm = ground (
    arith,
    sub_i32_parts n (pos 1),
    sub_i32_parts (sub_i32 n (pos 1)) (pos 4),
    sub_i32_parts (max_i32 n (pos 1)) (pos 1),
    sub_i32_parts (sub_i32 (max_i32 n (pos 1)) (pos 1)) (floored m),
  )

  low_entry : (m : ℤ) → leb_ℤ (pos 4) (floored m) ≡ true
  low_entry m = ground arith

  high_inside :
      (n : ℤ)
      → IsRemote n
      → (pos 0 ≤ℤ sub_i32 (sub_i32 n (pos 1)) (pos 4))
        × (sub_i32 (sub_i32 n (pos 1)) (pos 4) +ℤ pos 1 ≤ℤ n)
  high_inside n hn =
      omega (i32_laws, sub_i32_parts n (pos 1), sub_i32_parts (sub_i32 n (pos 1)) (pos 4))

  half_inside : (n : ℤ) → IsRemote n → (pos 0 ≤ℤ half_i32 n) × (half_i32 n +ℤ pos 1 ≤ℤ n)
  unfolding half_i32
  half_inside (pos n) hn = ground (arith, +ℤ_parts (pos (n / 2)) (pos 1))
  half_inside (negsuc n) hn = absurd (omega arith)

  -- A pixel of the remote screen, on its return edge.
  Enters : Label → Point → ℤ → ℤ → ℤ → Type 0
  Enters l q w h margin =
      IsIn (record { left = pos 0; top = pos 0; right = w; bottom = h; width = w; height = h }) q
      × (at_return_edge l q.x q.y (floored margin) (max_i32 w (pos 1)) (max_i32 h (pos 1)) ≡ true)

  entry_lem :
      (l : Label) (p : Point) (r : Rect) (w h margin : ℤ)
      → IsExit p r
      → IsRemote w
      → IsRemote h
      → IsCoord margin
      → Enters l (entry o l p r w h) w h margin
  unfolding Enters entry at_return_edge
  entry_lem Label.left p r w h margin ok hw hh hm = (
    omega (
      arith,
      high_inside w hw,
      along_bounds (sub_i32 p.y r.top) r.height h (omega i32_laws) ok.height_fits hh,
    ),
    high_entry w margin hw hm,
  )
  entry_lem Label.right p r w h margin ok hw hh hm = (
    omega
        (i32_laws, along_bounds (sub_i32 p.y r.top) r.height h (omega i32_laws) ok.height_fits hh),
    low_entry margin,
  )
  entry_lem Label.top p r w h margin ok hw hh hm = (
    omega (
      arith,
      high_inside h hh,
      along_bounds (sub_i32 p.x r.left) r.width w (omega i32_laws) ok.width_fits hw,
    ),
    high_entry h margin hh hm,
  )
  entry_lem Label.bottom p r w h margin ok hw hh hm = (
    omega (i32_laws, along_bounds (sub_i32 p.x r.left) r.width w (omega i32_laws) ok.width_fits hw),
    low_entry margin,
  )
  entry_lem Label.other p r w h margin ok hw hh hm =
      (omega (i32_laws, half_inside h hh), low_entry margin)

  -- For numbers in range and floats that obey IEEE 754, on a remote screen of at least 5 by 5
  -- pixels, the entry position is a pixel of that screen, and is_remote_return_edge already holds
  -- there, whatever the edge and the margin.
  pub remote_entry_position_lem :
      (p : Point) (r : Rect) (edge : String) (w h margin : ℤ)
      → IsExit p r
      → IsRemote w
      → IsRemote h
      → IsCoord margin
      → let q = remote_entry_position o p r edge w h in
        IsIn (record { left = pos 0; top = pos 0; right = w; bottom = h; width = w; height = h }) q
        × (is_remote_return_edge q.x q.y edge margin w h ≡ true)
  unfolding remote_entry_position is_remote_return_edge Enters
  remote_entry_position_lem p r edge w h margin ok hw hh hm =
      entry_lem (label_of edge) p r w h margin ok hw hh hm
