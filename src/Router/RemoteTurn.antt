-- ===== src/Router/RemoteTurn.antt =====
-- A turn of the router while a remote screen is active: the link watchdog, and the deltas that move the
-- logical cursor (apps/tailkvm-ui/src-tauri/src/router.rs).
use text.Mathlib.Text.{◌==◌ as str_eq}
use tail_kvm.Base.{
  ℕ, ◌-◌, ◌*◌, Bool, true, false, not, ◌&&◌, Option, none, some, leb, if◌then◌else◌,
}
use tail_kvm.Base.Int.{ℤ, pos}
use tail_kvm.Base.I32.{leb_ℤ}
use tail_kvm.Float.{F64}
use tail_kvm.Core.PushGate.{Instant}
use tail_kvm.KeyClass.{is_some}
use tail_kvm.LayoutGraph.Space.{MultiScreenSpace, ScreenCursor, ScreenSwitch, apply_delta}
use tail_kvm.Router.{
  RouterArgs, link_lost, returned_at, moved_to, Sender, set_cursor, Shared, Router, World, note,
  emit, screen_sender, peer_monitors_for,
}
use tail_kvm.Router.Steps.{
  Outcome, go_on, panicked, to_local, drain, clamp_cursor, send_position, anchor_for,
}

-- Milliseconds that a dead link is endured.
abbrev pub link_lost_return : ℕ
link_lost_return = 1500

-- `link_down_since` once the link has been looked at.
unfoldable pub watch_link : Bool → Instant → Option Instant → Option Instant
watch_link true now since = none
watch_link false now none = some now
watch_link false now (some t) = some t

-- `since.is_some_and(|t| t.elapsed() >= LINK_LOST_RETURN)`
abbrev pub is_expired : Option Instant → Instant → Bool
is_expired none now = false
is_expired (some t) now = leb (link_lost_return * 1000000) (now - t)

abbrev pub is_zero : ℤ → Bool
is_zero n = leb_ℤ n (pos 0) && leb_ℤ (pos 0) n

module _ (o : F64) where
  -- From one remote screen to another: the target is swapped, and the hooks stay.
  unfoldable pub switch_remote :
      RouterArgs → World → MultiScreenSpace → ScreenCursor → Router → Router
  unfolding clamp_cursor anchor_for screen_sender peer_monitors_for
  switch_remote a w space next r =
      let active = next.screen in
      let c : ScreenCursor = clamp_cursor (peer_monitors_for w.screen_sizes active) next in
      let sent : Shared = send_position (screen_sender w.sessions'' active) c r.shared in
      record r {
        active = active;
        cursor = c;
        active_slot = screen_sender w.sessions' active;
        shared =
            note (moved_to active) (record sent { ime_anchor = anchor_for o a space active c });
      }

  -- On the same screen: nothing is sent while the session has no channel.
  unfoldable pub stay_remote :
      RouterArgs → World → MultiScreenSpace → ScreenCursor → Router → Option Sender → Router
  unfolding clamp_cursor anchor_for peer_monitors_for
  stay_remote a w space next r none = record r { cursor = next }
  stay_remote a w space next r (some tx) =
      let c : ScreenCursor = clamp_cursor (peer_monitors_for w.screen_sizes r.active) next in
      let sent : Shared = send_position (some tx) c r.shared in
      record r {
        cursor = c;
        shared =
            emit (set_cursor a.lock_x a.lock_y)
              (record sent { ime_anchor = anchor_for o a space r.active c });
      }

  -- What follows the move of the logical cursor to `next`.
  unfoldable pub follow :
      RouterArgs → World → MultiScreenSpace → Router → ScreenCursor → Option ScreenSwitch → Router
  unfolding to_local switch_remote stay_remote screen_sender
  follow a w space r next none = stay_remote a w space next r (screen_sender w.sessions' r.active)
  follow a w space r next (some switch) =
      if not (str_eq next.screen a.local_name) && w.is_composing
      then r
      else if str_eq next.screen a.local_name
      then (let back : Router =
            to_local a (returned_at next.x next.y) (record r { cursor = next }) in
          record back { shared = emit (set_cursor next.x next.y) back.shared })
      else switch_remote a w space next r

  abbrev pub followed :
      RouterArgs
      → World
      → MultiScreenSpace
      → Router
      → Option (ScreenCursor × Option ScreenSwitch)
      → Outcome
  followed a w space r none = panicked r
  followed a w space r (some (next, switch)) = go_on (follow a w space r next switch)

  unfoldable pub integrate : RouterArgs → World → MultiScreenSpace → Router → Outcome
  unfolding drain follow
  integrate a w space r =
      let (acc_x, acc_y) = drain (pos 0) (pos 0) w.raw_deltas in
      if is_zero acc_x && is_zero acc_y
      then go_on r
      else followed a w space r (apply_delta o space r.cursor acc_x acc_y)

  unfoldable pub remote_turn : RouterArgs → World → MultiScreenSpace → Router → Outcome
  unfolding watch_link integrate to_local screen_sender
  remote_turn a w space r =
      let alive = is_some (screen_sender w.sessions r.active) in
      let since = watch_link alive w.now r.link_down_since in
      if is_expired since w.now'
      then go_on (to_local a link_lost (record r { link_down_since = none }))
      else integrate a w space (record r { link_down_since = since })
