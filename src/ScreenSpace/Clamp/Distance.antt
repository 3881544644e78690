-- ===== src/ScreenSpace/Clamp/Distance.antt =====
-- The squared distances of `clamp_to_rects`, and the pixel of one monitor that is nearest.
use tail_kvm.Base.{
  ℕ, zero, suc, ◌+◌, ◌-◌, ◌*◌, ◌^◌, ◌≤◌, ◌≡◌, refl, ◌⊎◌, true, false, Option, none, some, List, [],
  ◌∷◌, arith,
}
use tail_kvm.Base.Int.{ℤ, pos, negsuc, pos_part, neg_part, ◌≤ℤ◌, ◌+ℤ◌, +ℤ_parts, eq_of_parts}
use tail_kvm.Base.I32.{IsCoord, sub_i32, clamp_value, clamp_value_within, sub_i32_parts, i32_laws}
use tail_kvm.Base.I64.{magnitude, mul_i64_square, add_i64_exact}
use tail_kvm.ScreenSpace.Mapping.{IsNear}
use tail_kvm.ScreenSpace.Clamp.{Monitor, is_degenerate, clamp_monitor, square_dist}

-- |a - b|
pub gap : ℤ → ℤ → ℕ
gap a b = let u = pos_part a + neg_part b in let v = pos_part b + neg_part a in (u - v) + (v - u)

-- The squared distance from (x, y) to a pixel.
pub dist : ℤ → ℤ → ℤ × ℤ → ℕ
dist x y (p, q) = gap x p * gap x p + gap y q * gap y q

abbrev pub InMonitor : Monitor → ℤ × ℤ → Type 0
InMonitor (left, top, right, bottom) (p, q) =
    (left ≤ℤ p) × (p +ℤ pos 1 ≤ℤ right) × (top ≤ℤ q) × (q +ℤ pos 1 ≤ℤ bottom)

abbrev pub IsMonitor : Monitor → Type 0
IsMonitor (left, top, right, bottom) = IsCoord left × IsCoord top × IsCoord right × IsCoord bottom

magnitude-sub : (a b : ℤ) → IsNear a → IsNear b → magnitude (sub_i32 a b) ≡ gap a b
unfolding gap
magnitude-sub a b ha hb =
    magnitude_gap (sub_i32 a b) a b (sub_i32_parts a b (omega arith) (omega arith))
  where
    magnitude_gap :
        (d a b : ℤ)
        → pos_part d + neg_part a + pos_part b ≡ neg_part d + pos_part a + neg_part b
        → magnitude d ≡ gap a b
    magnitude_gap (pos n) a b h = omega arith
    magnitude_gap (negsuc n) a b h = omega arith

square_bound : (n m : ℕ) → n ≤ m → n * n ≤ m * m
square_bound n m h = grind arith

gap_bound : (a b : ℤ) → IsNear a → IsNear b → gap a b ≤ 2 ^ 30
unfolding gap
gap_bound a b ha hb = omega arith

square_dist-dist :
    (x y p q : ℤ)
    → IsNear x
    → IsNear y
    → IsNear p
    → IsNear q
    → square_dist x y (p, q) ≡ pos (dist x y (p, q))
unfolding square_dist dist
square_dist-dist x y p q hx hy hp hq =
    rw
      (
        mul_i64_square (sub_i32 x p) (rw (magnitude-sub x p hx hp) (gap_bound x p hx hp)),
        mul_i64_square (sub_i32 y q) (rw (magnitude-sub y q hy hq) (gap_bound y q hy hq)),
        magnitude-sub x p hx hp,
        magnitude-sub y q hy hq,
      )
      (add_i64_exact (gap x p * gap x p) (gap y q * gap y q) (
        omega (
          arith,
          square_bound (gap x p) (2 ^ 30) (gap_bound x p hx hp),
          square_bound (gap y q) (2 ^ 30) (gap_bound y q hy hq),
        )))

clamp_value_nearest : (v lo hi p : ℤ) → lo ≤ℤ p → p ≤ℤ hi → gap v (clamp_value v lo hi) ≤ gap v p
unfolding clamp_value gap
clamp_value_nearest v lo hi p h k = ground arith

pub clamp_monitor_nearest :
    (x y : ℤ) (m : Monitor) (pt : ℤ × ℤ)
    → IsMonitor m
    → InMonitor m pt
    → dist x y (clamp_monitor x y m) ≤ dist x y pt
unfolding dist
clamp_monitor_nearest x y (left, top, right, bottom) (p, q) (hl, ht, hr, hb) (a, b, c, d) =
    let cx : ℤ = clamp_value x left (sub_i32 right (pos 1)) in
    let cy : ℤ = clamp_value y top (sub_i32 bottom (pos 1)) in
    omega (
      arith,
      square_bound (gap x cx) (gap x p)
          (clamp_value_nearest x left (sub_i32 right (pos 1)) p a (omega i32_laws)),
      square_bound (gap y cy) (gap y q)
          (clamp_value_nearest y top (sub_i32 bottom (pos 1)) q c (omega i32_laws)),
    )

proper :
    (m : Monitor)
    → is_degenerate m ≡ false
    → let (left, top, right, bottom) = m in (left +ℤ pos 1 ≤ℤ right) × (top +ℤ pos 1 ≤ℤ bottom)
proper (left, top, right, bottom) ok = ground (arith, +ℤ_parts left (pos 1), +ℤ_parts top (pos 1))

pub degenerate_empty : (m : Monitor) (pt : ℤ × ℤ) → is_degenerate m ≡ true → InMonitor m pt → ⊥
degenerate_empty (left, top, right, bottom) (p, q) e (a, b, c, d) =
    ground (arith, +ℤ_parts p (pos 1), +ℤ_parts q (pos 1))

pub clamp_monitor_inside :
    (x y : ℤ) (m : Monitor)
    → IsMonitor m
    → is_degenerate m ≡ false
    → InMonitor m (clamp_monitor x y m)
clamp_monitor_inside x y (left, top, right, bottom) (hl, ht, hr, hb) ok =
    let (wide, tall) = proper (left, top, right, bottom) ok in
    omega (
      i32_laws,
      clamp_value_within x left (sub_i32 right (pos 1)) (omega i32_laws),
      clamp_value_within y top (sub_i32 bottom (pos 1)) (omega i32_laws),
    )

gap_self : (a : ℤ) → gap a a ≡ 0
unfolding gap
gap_self a = omega arith

gap_zero : (a b : ℤ) → gap a b ≡ 0 → b ≡ a
unfolding gap
gap_zero a b e = eq_of_parts b a (omega arith)

square_zero : (n : ℕ) → n * n ≡ 0 → n ≡ 0
square_zero zero e = refl
square_zero (suc n) e = absurd (omega arith)

pub dist_self : (x y : ℤ) → dist x y (x, y) ≡ 0
unfolding dist
dist_self x y = rw (gap_self x, gap_self y)

-- A pixel at distance 0 is the position itself.
pub dist_zero : (x y : ℤ) (pt : ℤ × ℤ) → dist x y pt ≡ 0 → pt ≡ (x, y)
unfolding dist
dist_zero x y (p, q) h = cc (
  gap_zero x p (square_zero (gap x p) (omega arith)),
  gap_zero y q (square_zero (gap y q) (omega arith)),
)

-- No pixel of the monitors is nearer than `pt`.
abbrev pub IsNearest : ℤ → ℤ → List Monitor → ℤ × ℤ → Type 0
IsNearest x y [] pt = Unit
IsNearest x y (m ∷ ms) pt =
    ((other : ℤ × ℤ) → InMonitor m other → dist x y pt ≤ dist x y other) × IsNearest x y ms pt

-- `pt` is a pixel of one of the monitors.
abbrev pub OnMonitors : List Monitor → ℤ × ℤ → Type 0
OnMonitors [] pt = ⊥
OnMonitors (m ∷ ms) pt = InMonitor m pt ⊎ OnMonitors ms pt

abbrev pub AllMonitors : List Monitor → Type 0
AllMonitors [] = Unit
AllMonitors (m ∷ ms) = IsMonitor m × AllMonitors ms

abbrev pub AllDegenerate : List Monitor → Type 0
AllDegenerate [] = Unit
AllDegenerate (m ∷ ms) = (is_degenerate m ≡ true) × AllDegenerate ms

-- What the accumulator of the loop records: the distance of its point.
abbrev pub IsExact : ℤ → ℤ → Option (ℤ × (ℤ × ℤ)) → Type 0
IsExact x y none = Unit
IsExact x y (some (d, pt)) = d ≡ pos (dist x y pt)

abbrev pub NotFarther : ℤ → ℤ → Option (ℤ × (ℤ × ℤ)) → ℤ × ℤ → Type 0
NotFarther x y none pt = Unit
NotFarther x y (some (d, best)) pt = dist x y pt ≤ dist x y best

pub here-IsNearest : (x y : ℤ) (ms : List Monitor) → IsNearest x y ms (x, y)
here-IsNearest x y [] = tt
here-IsNearest x y (m ∷ ms) = ((λ other _. rw (dist_self x y) (omega arith)), here-IsNearest x y ms)

pub here-NotFarther : (x y : ℤ) (best : Option (ℤ × (ℤ × ℤ))) → NotFarther x y best (x, y)
here-NotFarther x y none = tt
here-NotFarther x y (some (d, pt)) = rw (dist_self x y) (omega arith)

-- The point's distance as the loop computes it.
pub point_dist :
    (x y : ℤ) (m : Monitor)
    → IsNear x
    → IsNear y
    → IsMonitor m
    → is_degenerate m ≡ false
    → square_dist x y (clamp_monitor x y m) ≡ pos (dist x y (clamp_monitor x y m))
point_dist x y (left, top, right, bottom) hx hy fits ok =
    let (a, b, c, d) = clamp_monitor_inside x y (left, top, right, bottom) fits ok in
    square_dist-dist x y (clamp_value x left (sub_i32 right (pos 1)))
      (clamp_value y top (sub_i32 bottom (pos 1))) hx hy (omega i32_laws) (omega i32_laws)
