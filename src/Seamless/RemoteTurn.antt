-- ===== src/Seamless/RemoteTurn.antt =====
-- A turn of the capture engine while the remote is controlled: the link watchdog, the scaled deltas
-- that move the logical cursor, and the keepalive (apps/tailkvm-ui/src-tauri/src/seamless.rs).
use tail_kvm.Base.{
  ℕ, ◌+◌, ◌%◌, ◌^◌, Bool, true, false, ◌&&◌, Option, none, some, ◌==◌, if◌then◌else◌,
}
use tail_kvm.Base.Int.{pos}
use tail_kvm.Float.{F64}
use tail_kvm.Net.Protocol.{mouse_set_position}
use tail_kvm.Core.PushGate.{Instant}
use tail_kvm.ScreenSpace.Combined.{CursorState, apply_delta}
use tail_kvm.KeyClass.{is_some}
use tail_kvm.Forwarding.{has_elapsed}
use tail_kvm.Router.Steps.{drain}
use tail_kvm.Router.RemoteTurn.{is_expired, is_zero}
use tail_kvm.Session.Relay.{delivers}
use tail_kvm.Seamless.{
  SeamlessArgs, link_lost, returned_at, active_at, set_cursor, Shared, Engine, World, emit, note,
}
use tail_kvm.Seamless.Gain.{Carry, scaled}
use tail_kvm.Seamless.Steps.{
  Outcome, go_on, panicked, to_local, send_remote, clamp_state, anchor_of,
}

-- Milliseconds after which the position is sent again.
abbrev pub keepalive_ms : ℕ
keepalive_ms = 100

-- `if !alive && since.is_none() { since = Some(now) }`
unfoldable pub mark_down : Bool → Instant → Option Instant → Option Instant
mark_down true now since = since
mark_down false now none = some now
mark_down false now (some t) = some t

module _ (o : F64) where
  -- The logical cursor has come back to the local screen.
  unfoldable pub return_local : CursorState → Engine o → Engine o
  unfolding to_local
  return_local next r =
      let back = to_local o (record r { state = next }) in
      record back {
        shared = note (returned_at next.x next.y) (emit (set_cursor next.x next.y) back.shared);
      }

  -- Every 30th position is reported.
  abbrev counted : ℕ → CursorState → Shared → Shared
  counted count c s =
      if count % 30 == 0
      then record s { role = "controller"; connected = true; last_event = active_at count c.x c.y }
      else s

  -- It stays on the remote screen, and its position is sent.
  unfoldable pub stay_remote : SeamlessArgs → World → CursorState → Engine o → Engine o
  unfolding clamp_state anchor_of mark_down
  stay_remote a w next r =
      let c : CursorState = clamp_state r.peer_monitors next in
      let sent_ok = delivers w.sender_slot' in
      let count = (r.sent_count + 1) % 2 ^ 64 in
      let anchored : Shared = record r.shared {
        ime_anchor = anchor_of o r.anchor_local_rect r.anchor_remote_size c.x c.y;
      } in
      let sent = send_remote w.sender_slot' (mouse_set_position c.x c.y) anchored in
      record r {
        state = c;
        sent_count = count;
        link_down_since = if sent_ok then none else mark_down false w.now_sent r.link_down_since;
        last_send = if sent_ok then w.now_sent else r.last_send;
        shared = counted count c (emit (set_cursor a.lock_x a.lock_y) sent);
      }

  abbrev pub moved : SeamlessArgs → World → Engine o → Option (CursorState × Bool) → Outcome o
  moved a w r none = panicked r
  moved a w r (some (next, true)) = go_on (return_local next r)
  moved a w r (some (next, false)) = go_on (stay_remote a w next r)

  -- Nothing to move: the position is sent again after a while.
  unfoldable pub keep_alive : World → Engine o → Engine o
  keep_alive w r =
      let sent = send_remote w.sender_slot' (mouse_set_position r.state.x r.state.y) r.shared in
      if has_elapsed r.last_send keepalive_ms w.now_sent && delivers w.sender_slot'
      then record r { shared = sent; last_send = w.now_done }
      else r

module _ (o : F64) (k : Carry o) where
  unfoldable pub integrate : SeamlessArgs → World → Engine o → Outcome o
  unfolding drain scaled stay_remote return_local keep_alive apply_delta
  integrate a w r =
      let (acc_x, acc_y) = drain (pos 0) (pos 0) w.raw_deltas in
      let (gain_x, frac_x) = scaled o k r.gain r.frac_x acc_x in
      let (gain_y, frac_y) = scaled o k r.gain r.frac_y acc_y in
      let carried : Engine o = record r { frac_x = frac_x; frac_y = frac_y } in
      if is_zero gain_x && is_zero gain_y
      then go_on (keep_alive o w carried)
      else moved o a w carried (apply_delta o carried.combined carried.state gain_x gain_y)

  unfoldable pub remote_turn : SeamlessArgs → World → Engine o → Outcome o
  unfolding mark_down integrate to_local
  remote_turn a w r =
      let since = mark_down (is_some w.sender_slot) w.now r.link_down_since in
      let lost : Engine o = to_local o (record r { link_down_since = none }) in
      if is_expired since w.now'
      then go_on (record lost { shared = note link_lost lost.shared })
      else integrate a w (record r { link_down_since = since })
