-- ===== src/Router/Watchdog.antt =====
-- The link watchdog of `run_router`: how long control can stay on a screen whose session is dead
-- (apps/tailkvm-ui/src-tauri/src/router.rs).
use text.Mathlib.Text.{◌==◌ as str_eq}
use text.Mathlib.TextEquality.{eq_iff}
use mathlib.Core.Path.{subst}
use tail_kvm.Base.{
  ◌+◌, ◌*◌, ◌<◌, ◌≡◌, refl, sym, ap, ◌∙◌, ◌≢◌, inl, inr, Bool, true, false, ◌&&◌, Bool-cases,
  Option, none, some, Option-cases, List, [], ◌∷◌, arith, if◌then◌else◌,
}
use tail_kvm.Base.Int.{pos}
use tail_kvm.Float.{F64}
use tail_kvm.Core.PushGate.{Instant}
use tail_kvm.LayoutGraph.Space.{MultiScreenSpace, ScreenCursor, ScreenSwitch, rect, apply_delta}
use tail_kvm.Router.{RouterArgs, Router, World, Sender, link_lost, failsafe, screen_sender, note}
use tail_kvm.Router.Steps.{Outcome, go_on, leave, panicked, to_local, finish, drain}
use tail_kvm.Router.RemoteTurn.{
  link_lost_return, watch_link, is_expired, is_zero, switch_remote, stay_remote, follow, followed,
  integrate, remote_turn,
}
use tail_kvm.Router.Run.{
  drop_removed, turn_in, turn, with_space, interfere, Event, turned, meanwhile, Standing, looping,
  ended, settle, step,
}

-- When the link is first seen dead: before, or in the turn itself.
abbrev pub first_dead : Option Instant → Instant → Instant
first_dead none now = now
first_dead (some t) now = t

-- A turn that goes on has kept the time of the first sight.
abbrev KeepsLink : Option Instant → Outcome → Type 0
KeepsLink since (go_on r) = r.link_down_since ≡ since
KeepsLink since _ = Unit {0}

module _ (a : RouterArgs) (w : World) where
  -- A turn that goes on with a remote screen, whose link was first seen dead at `t`, is in time.
  abbrev InTime : Instant → Outcome → Type 0
  InTime t (go_on r) =
      r.active ≢ a.local_name
      → (r.link_down_since ≡ some t) × (w.now' < t + link_lost_return * 1000000)
  InTime t _ = Unit {0}

  KeepsLink-InTime :
      (t : Instant) (out : Outcome)
      → w.now' < t + link_lost_return * 1000000
      → KeepsLink (some t) out
      → InTime t out
  KeepsLink-InTime t (go_on r) soon keeps = λ _. (keeps, soon)
  KeepsLink-InTime t (leave r) soon keeps = tt
  KeepsLink-InTime t (panicked r) soon keeps = tt

module _ (o : F64) (a : RouterArgs) (w : World) (space : MultiScreenSpace) where
  stay_remote-link :
      (r : Router) (next : ScreenCursor) (tx : Option Sender)
      → (stay_remote o a w space next r tx).link_down_since ≡ r.link_down_since
  unfolding stay_remote
  stay_remote-link r next none = refl
  stay_remote-link r next (some tx) = refl

  follow-link :
      (r : Router) (next : ScreenCursor) (switch : Option ScreenSwitch)
      → (follow o a w space r next switch).link_down_since ≡ r.link_down_since
  unfolding follow switch_remote to_local
  follow-link r next none = stay_remote-link r next (screen_sender w.sessions' r.active)
  follow-link r next (some s) = ground arith

  integrate-KeepsLink : (r : Router) → KeepsLink r.link_down_since (integrate o a w space r)
  unfolding integrate
  integrate-KeepsLink r =
      let (dx, dy) = drain (pos 0) (pos 0) w.raw_deltas in
      choose (is_zero dx && is_zero dy) (apply_delta o space r.cursor dx dy)
    where
      choose :
          (idle : Bool) (moved : Option (ScreenCursor × Option ScreenSwitch))
          → KeepsLink r.link_down_since (if idle then go_on r else followed o a w space r moved)
      choose true moved = refl
      choose false none = tt
      choose false (some (next, switch)) = follow-link r next switch

  judged :
      (r : Router) (t : Instant) (late : Bool)
      → is_expired (some t) w.now' ≡ late
      → InTime a w t (
          if late
          then go_on (to_local a link_lost (record r { link_down_since = none }))
          else integrate o a w space (record r { link_down_since = some t }))
  unfolding to_local
  judged r t true e = λ ne. absurd (ne refl)
  judged r t false e =
      let r' : Router = record r { link_down_since = some t } in
      KeepsLink-InTime a w t (integrate o a w space r') (ground arith) (integrate-KeepsLink r')

  dated : (since : Option Instant) → watch_link false w.now since ≡ some (first_dead since w.now)
  unfolding watch_link
  dated none = refl
  dated (some t) = refl

  remote_turn-InTime :
      (r : Router)
      → screen_sender w.sessions r.active ≡ none
      → InTime a w (first_dead r.link_down_since w.now) (remote_turn o a w space r)
  unfolding remote_turn
  remote_turn-InTime r dead =
      let t = first_dead r.link_down_since w.now in
      rw (dead, remote_turn)
        (rw (dated r.link_down_since) (judged r t (is_expired (some t) w.now') refl))

-- The turn finds the active screen in the space, and its session without a channel.
abbrev pub FindsDead : World → Router → Type 0
FindsDead w r =
    (space : MultiScreenSpace) × (r.shared.router_space ≡ some space)
    × (rect space r.active ≢ none)
    × (screen_sender w.sessions r.active ≡ none)

module _ (o : F64) (a : RouterArgs) where
  drop_removed_known :
      (space : MultiScreenSpace) (r : Router)
      → rect space r.active ≢ none
      → drop_removed a space r ≡ r
  unfolding drop_removed
  drop_removed_known space r known = elim (Option-cases (rect space r.active)) [
    | inl gone ↦ absurd (known gone)
    | inr (_, there) ↦ rw (there, drop_removed) (if_same (str_eq r.active a.local_name))
  ]
    where
      if_same : (b : Bool) → (if b then r else r) ≡ r
      if_same true = refl
      if_same false = refl

  turn_in-InTime :
      (w : World) (r : Router) (space : MultiScreenSpace)
      → r.active ≢ a.local_name
      → screen_sender w.sessions r.active ≡ none
      → InTime a w (first_dead r.link_down_since w.now) (turn_in o a w space r)
  unfolding turn_in
  turn_in-InTime w r space ne dead = elim (Bool-cases (str_eq r.active a.local_name)) [
    | inl here ↦ absurd (ne ((eq_iff r.active a.local_name).0 here))
    | inr there ↦ rw (there, turn_in) (remote_turn-InTime o a w space r dead)
  ]

  with_space-InTime :
      (w : World) (r : Router) (spaces : Option MultiScreenSpace)
      → r.active ≢ a.local_name
      → FindsDead w r
      → r.shared.router_space ≡ spaces
      → InTime a w (first_dead r.link_down_since w.now) (with_space o a w r spaces)
  with_space-InTime w r none ne dead e = tt
  with_space-InTime w r (some space) ne (space', live, known, dead) e =
      let here : drop_removed a space r ≡ r =
        drop_removed_known space r
          (λ gone. known (subst (λ (s : MultiScreenSpace). rect s r.active ≡ none) (cc) gone)) in
      subst (λ r'. InTime a w (first_dead r.link_down_since w.now) (turn_in o a w space r'))
        (sym here) (turn_in-InTime w r space ne dead)

  -- What the loop makes of a turn, if it goes on.
  GoesOn : Instant → World → Standing → Type 0
  GoesOn t w (looping r) =
      r.active ≢ a.local_name
      → (r.link_down_since ≡ some t) × (w.now' < t + link_lost_return * 1000000)
  GoesOn t w _ = Unit {0}

  step-GoesOn :
      (w : World) (r : Router)
      → r.active ≢ a.local_name
      → FindsDead w r
      → GoesOn (first_dead r.link_down_since w.now) w (step o a w r)
  unfolding step turn GoesOn
  step-GoesOn w r ne dead =
      choose r.shared.router_running w.pause_pressed (with_space o a w r r.shared.router_space)
        (with_space-InTime w r r.shared.router_space ne dead refl)
    where
      choose :
          (on pressed : Bool) (out : Outcome)
          → InTime a w (first_dead r.link_down_since w.now) out
          → GoesOn (first_dead r.link_down_since w.now) w (
              if on
              then settle
                  (if pressed then leave (record r { shared = note failsafe r.shared }) else out)
              else ended (finish r))
      choose true true out h = tt
      choose true false (go_on r') h = h
      choose true false (leave r') h = tt
      choose true false (panicked r') h = tt
      choose false pressed out h = tt

  -- Through all of the events the loop goes on with a remote screen, although each turn finds the
  -- session of the active screen dead.
  unfoldable pub Endures : Router → List Event → Type 0
  Endures r [] = Unit {0}
  Endures r (meanwhile e ∷ es) = Endures (record r { shared = interfere e r.shared }) es
  Endures r (turned w ∷ es) =
      FindsDead w r
      × ((r' : Router) × (step o a w r ≡ looping r') × (r'.active ≢ a.local_name) × Endures r' es)

-- Each turn has looked at the clock before the limit.
pub Before : Instant → List Event → Type 0
Before limit [] = Unit {0}
Before limit (meanwhile e ∷ es) = Before limit es
Before limit (turned w ∷ es) = (w.now' < limit) × Before limit es

module _ (o : F64) (a : RouterArgs) where
  Endures-Before :
      (r : Router) (t : Instant) (es : List Event)
      → r.active ≢ a.local_name
      → r.link_down_since ≡ some t
      → Endures o a r es
      → Before (t + link_lost_return * 1000000) es
  unfolding Endures Before GoesOn
  Endures-Before r t [] ne since h = tt
  Endures-Before r t (meanwhile e ∷ es) ne since h =
      Endures-Before (record r { shared = interfere e r.shared }) t es ne since h
  Endures-Before r t (turned w ∷ es) ne since (dead, (r', on, away, h)) =
      let now =
        subst (GoesOn o a (first_dead r.link_down_since w.now) w) on (step-GoesOn o a w r ne dead)
          away in
      let same : first_dead r.link_down_since w.now ≡ t = rw since in
      (
        subst (λ u. w.now' < u + link_lost_return * 1000000) same now.1,
        Endures-Before r' t es away (now.0 ∙ ap some same) h,
      )

  -- While a remote screen is active whose session was alive, and from the turn `w` on every turn finds the
  -- session of the active screen dead, the loop goes on with a remote screen only through turns that look
  -- at the clock less than 1500 ms after `w` did, whatever the other threads do in between: at the first
  -- later turn control is back at the local screen, or the loop has ended.
  pub dead_link-Before :
      (r : Router) (w : World) (es : List Event)
      → r.active ≢ a.local_name
      → r.link_down_since ≡ none
      → Endures o a r (turned w ∷ es)
      → Before (w.now + link_lost_return * 1000000) (turned w ∷ es)
  unfolding Endures Before GoesOn
  dead_link-Before r w es ne alive (dead, (r', on, away, h)) =
      let now =
        subst (GoesOn o a (first_dead r.link_down_since w.now) w) on (step-GoesOn o a w r ne dead)
          away in
      let same : first_dead r.link_down_since w.now ≡ w.now = rw alive in
      (
        subst (λ u. w.now' < u + link_lost_return * 1000000) same now.1,
        Endures-Before r' w.now es away (now.0 ∙ ap some same) h,
      )
