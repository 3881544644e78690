-- ===== src/ScreenSpace/Clamp.antt =====
-- `clamp_to_rects` of crates/tailkvm-win32/src/screen_space.rs: the nearest pixel of a peer's monitors.
pub mod Distance
pub mod Nearest
use tail_kvm.Base.{
  ℕ, zero, suc, ◌+◌, ◌-◌, ◌*◌, ◌^◌, ◌≤◌, ◌<◌, ◌≡◌, refl, ◌⊎◌, inl, inr, Bool, true, false, ◌||◌,
  Bool-cases, Option, none, some, List, [], ◌∷◌, arith, ltb, leb, ◌==◌, if◌then◌else◌,
}
use tail_kvm.Base.Int.{ℤ, pos, negsuc, pos_part, neg_part, ◌≤ℤ◌, ◌+ℤ◌, ◌*ℤ◌, ltb_ℤ, +ℤ_parts}
use tail_kvm.Base.I32.{
  IsCoord, sub_i32, clamp_value, clamp_value_within, clamp_value_same, sub_i32_parts, leb_ℤ,
  i32_laws,
}
use tail_kvm.Base.I64.{IsI64, wrap64_exact, add_i64, mul_i64}

-- `(left, top, right, bottom)`, right and bottom exclusive.
abbrev pub Monitor : Type 0
Monitor = ℤ × ℤ × ℤ × ℤ

-- `right <= left || bottom <= top`
abbrev pub is_degenerate : Monitor → Bool
is_degenerate (left, top, right, bottom) = leb_ℤ right left || leb_ℤ bottom top

-- `(x.clamp(left, right - 1), y.clamp(top, bottom - 1))`, which is called on no degenerate rectangle,
-- so that neither range is empty.
abbrev pub clamp_monitor : ℤ → ℤ → Monitor → ℤ × ℤ
clamp_monitor x y (left, top, right, bottom) =
    (clamp_value x left (sub_i32 right (pos 1)), clamp_value y top (sub_i32 bottom (pos 1)))

-- `dx * dx + dy * dy` in i64, where `dx` and `dy` are differences in i32.
unfoldable pub square_dist : ℤ → ℤ → ℤ × ℤ → ℤ
square_dist x y (cx, cy) =
    let dx = sub_i32 x cx in let dy = sub_i32 y cy in add_i64 (mul_i64 dx dx) (mul_i64 dy dy)

is_zero : ℤ → Bool
is_zero (pos zero) = true
is_zero _ = false

-- `best.is_none_or(|(d, _)| dist < d)`
is_better : ℤ → Option (ℤ × (ℤ × ℤ)) → Bool
is_better dist none = true
is_better dist (some (d, _)) = ltb_ℤ dist d

-- The loop, with `best` as its accumulator.
clamp_loop : ℤ → ℤ → Option (ℤ × (ℤ × ℤ)) → List Monitor → ℤ × ℤ
unfolding is_zero is_better
clamp_loop x y none [] = (x, y)
clamp_loop x y (some (_, point)) [] = point
clamp_loop x y best (rect ∷ rects) =
    let point = clamp_monitor x y rect in
    let dist = square_dist x y point in
    let skip = clamp_loop x y best rects in
    let next = clamp_loop x y (if is_better dist best then some (dist, point) else best) rects in
    if is_degenerate rect then skip else if is_zero dist then (x, y) else next

unfoldable pub clamp_to_rects : ℤ → ℤ → List Monitor → ℤ × ℤ
unfolding clamp_loop
clamp_to_rects x y rects = clamp_loop x y none rects
