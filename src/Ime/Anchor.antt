-- ===== src/Ime/Anchor.antt =====
-- The candidate anchor, crates/tailkvm-win32/src/ime_anchor.rs.
use tail_kvm.Base.{◌≡◌, ◌⊎◌, Option, none, some, arith}
use tail_kvm.Base.Int.{ℤ, pos, ◌≤ℤ◌, ◌+ℤ◌, +ℤ_parts}
use tail_kvm.Base.I32.{
  IsCoord, add_i32, sub_i32, max_i32, clamp_i32, clamp_value, clamp_i32-some, clamp_value_within,
  add_i32_parts, sub_i32_parts, i32_laws,
}

-- `(left, top, right, bottom)`
abbrev pub AnchorRect : Type 0
AnchorRect = ℤ × ℤ × ℤ × ℤ

abbrev pub anchor_edge_margin : ℤ
anchor_edge_margin = pos 16

-- `a.clamp(lo, hi)` with `lo = from + 16` and `hi = (to - 1 - 16).max(lo)`, whose range is never empty.
unfoldable pub anchored : ℤ → ℤ → ℤ → Option ℤ
unfolding clamp_i32
anchored a from to =
    let lo = add_i32 from anchor_edge_margin in
    let hi = max_i32 (sub_i32 (sub_i32 to (pos 1)) anchor_edge_margin) lo in clamp_i32 a lo hi

abbrev both : Option ℤ → Option ℤ → Option (ℤ × ℤ)
both (some x) (some y) = some (x, y)
both _ _ = none

unfoldable pub clamp_anchor : ℤ → ℤ → AnchorRect → Option (ℤ × ℤ)
unfolding anchored
clamp_anchor x y (left, top, right, bottom) = both (anchored x left right) (anchored y top bottom)

far :
    (v from to : ℤ)
    → IsCoord from
    → IsCoord to
    → v ≤ℤ max_i32 (sub_i32 (sub_i32 to (pos 1)) (pos 16)) (add_i32 from (pos 16))
    → (v +ℤ pos 17 ≤ℤ to) ⊎ (to ≤ℤ from +ℤ pos 32)
far v from to hf ht h = ground (
  arith,
  +ℤ_parts v (pos 17),
  +ℤ_parts from (pos 32),
  sub_i32_parts to (pos 1),
  sub_i32_parts (sub_i32 to (pos 1)) (pos 16),
  add_i32_parts from (pos 16),
)

anchored_lem :
    (a from to : ℤ)
    → IsCoord from
    → IsCoord to
    → (v : ℤ) × (anchored a from to ≡ some v)
      × (from +ℤ pos 16 ≤ℤ v)
      × ((v +ℤ pos 17 ≤ℤ to) ⊎ (to ≤ℤ from +ℤ pos 32))
unfolding anchored
anchored_lem a from to hf ht =
    let lo : ℤ = add_i32 from (pos 16) in
    let hi : ℤ = max_i32 (sub_i32 (sub_i32 to (pos 1)) (pos 16)) lo in
    let ordered : lo ≤ℤ hi = ground arith in
    (
      clamp_value a lo hi,
      clamp_i32-some a lo hi ordered,
      omega (i32_laws, clamp_value_within a lo hi ordered),
      far (clamp_value a lo hi) from to hf ht (clamp_value_within a lo hi ordered).1,
    )

-- On a monitor with coordinates in range, clamp_anchor does not panic, and its answer keeps 16
-- pixels to the left and upper edges, and also to the right and to the lower edge, unless the
-- monitor is at most 32 pixels wide or high.
pub clamp_anchor_lem :
    (x y left top right bottom : ℤ)
    → IsCoord left
    → IsCoord top
    → IsCoord right
    → IsCoord bottom
    → (p : ℤ × ℤ) × (clamp_anchor x y (left, top, right, bottom) ≡ some p)
      × (left +ℤ pos 16 ≤ℤ p.0)
      × (top +ℤ pos 16 ≤ℤ p.1)
      × ((p.0 +ℤ pos 17 ≤ℤ right) ⊎ (right ≤ℤ left +ℤ pos 32))
      × ((p.1 +ℤ pos 17 ≤ℤ bottom) ⊎ (bottom ≤ℤ top +ℤ pos 32))
unfolding clamp_anchor
clamp_anchor_lem x y left top right bottom hl ht hr hb =
    let (u, eu, low_u, high_u) = anchored_lem x left right hl hr in
    let (v, ev, low_v, high_v) = anchored_lem y top bottom ht hb in
    ((u, v), rw (eu, ev), low_u, low_v, high_u, high_v)
