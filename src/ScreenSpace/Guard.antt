-- ===== src/ScreenSpace/Guard.antt =====
-- `SwitchGuard` of crates/tailkvm-win32/src/screen_space.rs: the dwell time before an edge switch.
use tail_kvm.Base.{
  ℕ, suc, ◌+◌, ◌-◌, ◌*◌, ◌^◌, ◌<◌, ◌≡◌, refl, Bool, true, false, not, ◌||◌, List, [], ◌∷◌, arith,
  ltb, leb, if◌then◌else◌,
}

pub record SwitchGuard : Type 0 where
  pub dwell_ms : ℕ
  pub interval_ms : ℕ
  pub accumulated_ms : ℕ

unfoldable pub new : ℕ → ℕ → SwitchGuard
new dwell_ms interval_ms = record {
  dwell_ms = dwell_ms;
  interval_ms = if ltb interval_ms 1 then 1 else interval_ms;
  accumulated_ms = 0;
}

-- `u64::saturating_add`
abbrev pub saturating_add : ℕ → ℕ → ℕ
saturating_add a b = if ltb (a + b) (2 ^ 64) then a + b else 2 ^ 64 - 1

-- One tick: whether the switch fires, with the new state.
unfoldable pub update : SwitchGuard → Bool → Bool → SwitchGuard × Bool
update g at_edge near_corner =
    let accumulated = saturating_add g.accumulated_ms g.interval_ms in
    if not at_edge || near_corner
    then (record g { accumulated_ms = 0 }, false)
    else if leb g.dwell_ms accumulated
    then (record g { accumulated_ms = 0 }, true)
    else (record g { accumulated_ms = accumulated }, false)

-- The outputs of a sequence of ticks, each given by (at_edge, near_corner).
unfoldable pub updates : SwitchGuard → List (Bool × Bool) → List Bool
updates g [] = []
updates g ((at_edge, near_corner) ∷ ticks) =
    let (g', fire) = update g at_edge near_corner in fire ∷ updates g' ticks

-- The specification counts the ticks at the edge since the last reset. It does not know of the
-- accumulated milliseconds or of their saturation.
pub streak_fires : ℕ → ℕ → ℕ → List (Bool × Bool) → List Bool
streak_fires dwell interval k [] = []
streak_fires dwell interval k ((true, false) ∷ ticks) =
    let due = leb dwell (suc k * interval) in
    due ∷ streak_fires dwell interval (if due then 0 else suc k) ticks
streak_fires dwell interval k ((true, true) ∷ ticks) = false ∷ streak_fires dwell interval 0 ticks
streak_fires dwell interval k ((false, c) ∷ ticks) = false ∷ streak_fires dwell interval 0 ticks

-- The guard after `k` ticks at the edge.
abbrev dwelt : ℕ → ℕ → ℕ → SwitchGuard
dwelt dwell interval k = record {
  dwell_ms = dwell;
  interval_ms = interval;
  accumulated_ms = k * interval;
}

update-dwelt :
    (dwell interval k : ℕ)
    → dwell < 2 ^ 64
    → k * interval < 2 ^ 64
    → update (dwelt dwell interval k) true false ≡ (
        if leb dwell (suc k * interval)
        then (dwelt dwell interval 0, true)
        else (dwelt dwell interval (suc k), false))
unfolding update
update-dwelt dwell interval k h hk = ground arith

update_corner :
    (dwell interval k : ℕ)
    → update (dwelt dwell interval k) true true ≡ (dwelt dwell interval 0, false)
unfolding update
update_corner dwell interval k = ground arith

update_away :
    (dwell interval k : ℕ) (c : Bool)
    → update (dwelt dwell interval k) false c ≡ (dwelt dwell interval 0, false)
unfolding update
update_away dwell interval k c = ground arith

updates-eq-streak_fires_from :
    (dwell interval k : ℕ) (ticks : List (Bool × Bool))
    → dwell < 2 ^ 64
    → k * interval < 2 ^ 64
    → updates (dwelt dwell interval k) ticks ≡ streak_fires dwell interval k ticks
unfolding updates streak_fires
updates-eq-streak_fires_from dwell interval k [] h hk = refl
updates-eq-streak_fires_from dwell interval k ((true, false) ∷ ticks) h hk = ground (
  arith,
  update-dwelt dwell interval k h hk,
  updates-eq-streak_fires_from dwell interval 0 ticks h (omega arith),
  updates-eq-streak_fires_from dwell interval (suc k) ticks h,
)
updates-eq-streak_fires_from dwell interval k ((true, true) ∷ ticks) h hk = ground (
  arith,
  update_corner dwell interval k,
  updates-eq-streak_fires_from dwell interval 0 ticks h (omega arith),
)
updates-eq-streak_fires_from dwell interval k ((false, c) ∷ ticks) h hk = ground (
  arith,
  update_away dwell interval k c,
  updates-eq-streak_fires_from dwell interval 0 ticks h (omega arith),
)

new-dwelt :
    (dwell interval : ℕ)
    → new dwell interval ≡ dwelt dwell (if ltb interval 1 then 1 else interval) 0
unfolding new
new-dwelt dwell interval = ground arith

-- With a dwell time below 2^64, a new guard answers every sequence of ticks as the count of
-- consecutive ticks at the edge says: it fires at the first tick of a run whose length times the
-- interval (at least 1) reaches the dwell time, and then starts again; a tick off the edge or in a
-- dead corner starts the run again.
pub updates-new :
    (dwell interval : ℕ) (ticks : List (Bool × Bool))
    → dwell < 2 ^ 64
    → updates (new dwell interval) ticks
      ≡ streak_fires dwell (if ltb interval 1 then 1 else interval) 0 ticks
updates-new dwell interval ticks h = rw (new-dwelt dwell interval) (
    updates-eq-streak_fires_from dwell (if ltb interval 1 then 1 else interval) 0 ticks h
      (omega arith))
