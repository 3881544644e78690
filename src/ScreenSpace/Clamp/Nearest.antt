-- ===== src/ScreenSpace/Clamp/Nearest.antt =====
-- `clamp_to_rects` answers the nearest pixel that some monitor has.
use tail_kvm.Base.{
  ◌≤◌, ◌≡◌, refl, sym, ◌⊎◌, inl, inr, true, false, Bool-cases, Option, none, some, List, [], ◌∷◌,
  arith, ℕ, zero, suc,
}
use mathlib.Core.Path.{subst}
use tail_kvm.Base.Int.{ℤ, pos}
use tail_kvm.ScreenSpace.Mapping.{IsNear}
use tail_kvm.ScreenSpace.Clamp.{
  Monitor, is_degenerate, clamp_monitor, square_dist, is_zero, is_better, clamp_loop,
  clamp_to_rects,
}
use tail_kvm.ScreenSpace.Clamp.Distance.{
  dist, InMonitor, degenerate_empty, clamp_monitor_inside, clamp_monitor_nearest, dist_self,
  dist_zero, IsNearest, OnMonitors, AllMonitors, AllDegenerate, IsExact, NotFarther, here-IsNearest,
  here-NotFarther, point_dist,
}

better-NotFarther :
    (x y : ℤ) (best : Option (ℤ × (ℤ × ℤ))) (pt q : ℤ × ℤ)
    → IsExact x y best
    → is_better (pos (dist x y pt)) best ≡ true
    → dist x y q ≤ dist x y pt
    → NotFarther x y best q
unfolding is_better
better-NotFarther x y none pt q h b le = tt
better-NotFarther x y (some (d, best)) pt q h b le = ground arith

worse-NotFarther :
    (x y : ℤ) (best : Option (ℤ × (ℤ × ℤ))) (pt q : ℤ × ℤ)
    → IsExact x y best
    → is_better (pos (dist x y pt)) best ≡ false
    → NotFarther x y best q
    → dist x y q ≤ dist x y pt
unfolding is_better
worse-NotFarther x y none pt q h b le = cc
worse-NotFarther x y (some (d, best)) pt q h b le = ground arith

-- A degenerate rectangle is passed over.
clamp_loop_skip :
    (x y : ℤ) (best : Option (ℤ × (ℤ × ℤ))) (m : Monitor) (ms : List Monitor)
    → is_degenerate m ≡ true
    → clamp_loop x y best (m ∷ ms) ≡ clamp_loop x y best ms
unfolding clamp_loop
clamp_loop_skip x y best m ms deg = rw (deg, clamp_loop)

clamp_loop_here :
    (x y : ℤ) (best : Option (ℤ × (ℤ × ℤ))) (m : Monitor) (ms : List Monitor)
    → is_degenerate m ≡ false
    → is_zero (square_dist x y (clamp_monitor x y m)) ≡ true
    → clamp_loop x y best (m ∷ ms) ≡ (x, y)
unfolding clamp_loop
clamp_loop_here x y best m ms ok here = rw (ok, here, clamp_loop)

clamp_loop_better :
    (x y : ℤ) (best : Option (ℤ × (ℤ × ℤ))) (m : Monitor) (ms : List Monitor)
    → is_degenerate m ≡ false
    → is_zero (square_dist x y (clamp_monitor x y m)) ≡ false
    → is_better (square_dist x y (clamp_monitor x y m)) best ≡ true
    → let point = clamp_monitor x y m in
      clamp_loop x y best (m ∷ ms) ≡ clamp_loop x y (some (square_dist x y point, point)) ms
unfolding clamp_loop
clamp_loop_better x y best m ms ok away better = rw (ok, away, better, clamp_loop)

clamp_loop_worse :
    (x y : ℤ) (best : Option (ℤ × (ℤ × ℤ))) (m : Monitor) (ms : List Monitor)
    → is_degenerate m ≡ false
    → is_zero (square_dist x y (clamp_monitor x y m)) ≡ false
    → is_better (square_dist x y (clamp_monitor x y m)) best ≡ false
    → clamp_loop x y best (m ∷ ms) ≡ clamp_loop x y best ms
unfolding clamp_loop
clamp_loop_worse x y best m ms ok away worse = rw (ok, away, worse, clamp_loop)

loop-IsNearest :
    (x y : ℤ) (best : Option (ℤ × (ℤ × ℤ))) (ms : List Monitor)
    → IsNear x
    → IsNear y
    → AllMonitors ms
    → IsExact x y best
    → NotFarther x y best (clamp_loop x y best ms) × IsNearest x y ms (clamp_loop x y best ms)
unfolding clamp_loop
loop-IsNearest x y none [] hx hy fits exact = (tt, tt)
loop-IsNearest x y (some (d, pt)) [] hx hy fits exact = (omega arith, tt)
loop-IsNearest x y best (m ∷ ms) hx hy fits exact =
    let point = clamp_monitor x y m in
    let skip = loop-IsNearest x y best ms hx hy fits.1 exact in
    let take = loop-IsNearest x y (some (square_dist x y point, point)) ms hx hy fits.1 in
    elim (Bool-cases (is_degenerate m)) [
      | inl deg ↦
          rw (deg, clamp_loop)
            (skip.0, ((λ other i. absurd (degenerate_empty m other deg i)), skip.1))
      | inr ok ↦
          let exact_point = point_dist x y m hx hy fits.0 ok in
          let near_m : (q : ℤ × ℤ)
              → dist x y q ≤ dist x y point
              → (other : ℤ × ℤ) → InMonitor m other
              → dist x y q ≤ dist x y other =
            λ q le other i. omega (arith, clamp_monitor_nearest x y m other fits.0 i) in
          elim (Bool-cases (is_zero (square_dist x y point))) [
            | inl here ↦
                rw (ok, here, clamp_loop) (here-NotFarther x y best, here-IsNearest x y (m ∷ ms))
            | inr away ↦ elim (Bool-cases (is_better (square_dist x y point) best)) [
              | inl better ↦
                  let ih = take exact_point in
                  rw (ok, away, better, clamp_loop)
                    (
                      better-NotFarther x y best point
                          (clamp_loop x y (some (square_dist x y point, point)) ms) exact
                          (rw exact_point at better) ih.0,
                      (near_m (clamp_loop x y (some (square_dist x y point, point)) ms) ih.0, ih.1),
                    )
              | inr worse ↦
                  rw (ok, away, worse, clamp_loop)
                    (
                      skip.0,
                      (
                        near_m (clamp_loop x y best ms) (
                            worse-NotFarther x y best point (clamp_loop x y best ms) exact
                              (rw exact_point at worse) skip.0),
                        skip.1,
                      ),
                    )
            ]
          ]
    ]

-- Where the point of the accumulator comes from, if there is one.
abbrev IsBestPoint : Option (ℤ × (ℤ × ℤ)) → ℤ × ℤ → Type 0
IsBestPoint none pt = ⊥
IsBestPoint (some (d, best)) pt = pt ≡ best

abbrev IsNone : Option (ℤ × (ℤ × ℤ)) → Type 0
IsNone none = Unit
IsNone (some _) = ⊥

-- The three origins of the answer.
abbrev Origin : ℤ → ℤ → Option (ℤ × (ℤ × ℤ)) → List Monitor → ℤ × ℤ → Type 0
Origin x y best ms pt =
    IsBestPoint best pt ⊎ (OnMonitors ms pt ⊎ (IsNone best × AllDegenerate ms × (pt ≡ (x, y))))

skip-Origin :
    (x y : ℤ) (best : Option (ℤ × (ℤ × ℤ))) (m : Monitor) (ms : List Monitor) (pt : ℤ × ℤ)
    → is_degenerate m ≡ true
    → Origin x y best ms pt
    → Origin x y best (m ∷ ms) pt
skip-Origin x y best m ms pt deg (inl same) = inl same
skip-Origin x y best m ms pt deg (inr (inl on)) = inr (inl (inr on))
skip-Origin x y best m ms pt deg (inr (inr (n, all, e))) = inr (inr (n, (deg, all), e))

take-Origin :
    (x y : ℤ) (best : Option (ℤ × (ℤ × ℤ))) (d : ℤ) (point : ℤ × ℤ) (m : Monitor)
    (ms : List Monitor) (pt : ℤ × ℤ)
    → InMonitor m point
    → Origin x y (some (d, point)) ms pt
    → Origin x y best (m ∷ ms) pt
take-Origin x y best d point m ms pt i (inl same) =
    inr (inl (inl (subst (InMonitor m) (sym same) i)))
take-Origin x y best d point m ms pt i (inr (inl on)) = inr (inl (inr on))
take-Origin x y best d point m ms pt i (inr (inr (n, all, e))) = absurd n

keep-Origin :
    (x y : ℤ) (best : Option (ℤ × (ℤ × ℤ))) (m : Monitor) (ms : List Monitor) (pt : ℤ × ℤ) (d : ℤ)
    → is_better d best ≡ false
    → Origin x y best ms pt
    → Origin x y best (m ∷ ms) pt
unfolding is_better
keep-Origin x y none m ms pt d worse origin = cc
keep-Origin x y (some (e, best)) m ms pt d worse (inl same) = inl same
keep-Origin x y (some (e, best)) m ms pt d worse (inr (inl on)) = inr (inl (inr on))
keep-Origin x y (some (e, best)) m ms pt d worse (inr (inr (n, all, same))) = absurd n

zero_here : (x y : ℤ) (pt : ℤ × ℤ) (d : ℤ) → d ≡ pos (dist x y pt) → is_zero d ≡ true → pt ≡ (x, y)
unfolding is_zero
zero_here x y pt d e z = dist_zero x y pt (go (dist x y pt) (rw e at z))
  where
    go : (n : ℕ) → is_zero (pos n) ≡ true → n ≡ 0
    go zero h = refl
    go (suc n) h = cc

loop-Origin :
    (x y : ℤ) (best : Option (ℤ × (ℤ × ℤ))) (ms : List Monitor)
    → IsNear x
    → IsNear y
    → AllMonitors ms
    → Origin x y best ms (clamp_loop x y best ms)
unfolding clamp_loop
loop-Origin x y none [] hx hy fits = inr (inr (tt, tt, refl))
loop-Origin x y (some (d, pt)) [] hx hy fits = inl refl
loop-Origin x y best (m ∷ ms) hx hy fits =
    let point = clamp_monitor x y m in
    let d = square_dist x y point in
    let skip = loop-Origin x y best ms hx hy fits.1 in
    let take = loop-Origin x y (some (d, point)) ms hx hy fits.1 in
    elim (Bool-cases (is_degenerate m)) [
      | inl deg ↦
          subst (Origin x y best (m ∷ ms)) (sym (clamp_loop_skip x y best m ms deg))
            (skip-Origin x y best m ms (clamp_loop x y best ms) deg skip)
      | inr ok ↦
          let inside = clamp_monitor_inside x y m fits.0 ok in
          elim (Bool-cases (is_zero d)) [
            | inl here ↦
                subst (Origin x y best (m ∷ ms)) (sym (clamp_loop_here x y best m ms ok here)) (
                  inr (
                    inl (
                      inl (
                        subst (InMonitor m)
                          (zero_here x y point d (point_dist x y m hx hy fits.0 ok) here) inside))))
            | inr away ↦ elim (Bool-cases (is_better d best)) [
              | inl better ↦
                  subst (Origin x y best (m ∷ ms))
                    (sym (clamp_loop_better x y best m ms ok away better))
                    (take-Origin x y best d point m ms (clamp_loop x y (some (d, point)) ms) inside
                      take)
              | inr worse ↦
                  subst (Origin x y best (m ∷ ms))
                    (sym (clamp_loop_worse x y best m ms ok away worse))
                    (keep-Origin x y best m ms (clamp_loop x y best ms) d worse skip)
            ]
          ]
    ]

-- For a position and monitors with coordinates in range, the answer of clamp_to_rects is a pixel of
-- some monitor, or the position itself where every monitor is degenerate, and no pixel of any
-- monitor is nearer to the position.
pub clamp_to_rects-IsNearest :
    (x y : ℤ) (ms : List Monitor)
    → IsNear x
    → IsNear y
    → AllMonitors ms
    → (OnMonitors ms (clamp_to_rects x y ms)
        ⊎ (AllDegenerate ms × (clamp_to_rects x y ms ≡ (x, y))))
      × IsNearest x y ms (clamp_to_rects x y ms)
unfolding clamp_to_rects
clamp_to_rects-IsNearest x y ms hx hy fits =
    (origin (loop-Origin x y none ms hx hy fits), (loop-IsNearest x y none ms hx hy fits tt).1)
  where
    origin :
        Origin x y none ms (clamp_loop x y none ms)
        → OnMonitors ms (clamp_loop x y none ms)
          ⊎ (AllDegenerate ms × (clamp_loop x y none ms ≡ (x, y)))
    origin (inl h) = absurd h
    origin (inr (inl on)) = inl on
    origin (inr (inr (n, all, e))) = inr (all, e)

nearest_self :
    (x y : ℤ) (ms : List Monitor) (pt : ℤ × ℤ)
    → OnMonitors ms (x, y)
    → IsNearest x y ms pt
    → pt ≡ (x, y)
nearest_self x y [] pt on near = absurd on
nearest_self x y (m ∷ ms) pt (inl i) near =
    dist_zero x y pt (omega (arith, near.0 (x, y) i, dist_self x y))
nearest_self x y (m ∷ ms) pt (inr on) near = nearest_self x y ms pt on near.1

-- For a position and monitors with coordinates in range, clamp_to_rects leaves a position that is
-- on a monitor where it is.
pub clamp_to_rects_self :
    (x y : ℤ) (ms : List Monitor)
    → IsNear x
    → IsNear y
    → AllMonitors ms
    → OnMonitors ms (x, y)
    → clamp_to_rects x y ms ≡ (x, y)
clamp_to_rects_self x y ms hx hy fits on =
    nearest_self x y ms (clamp_to_rects x y ms) on (clamp_to_rects-IsNearest x y ms hx hy fits).1
