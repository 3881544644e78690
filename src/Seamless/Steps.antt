-- ===== src/Seamless/Steps.antt =====
-- What the turns of the capture engine share: the hooks, the outbound channel, the anchor, and the way
-- back to local input (apps/tailkvm-ui/src-tauri/src/seamless.rs).
use tail_kvm.Base.{List, Bool, true, false, Option, none, some}
use tail_kvm.Base.Int.{ℤ}
use tail_kvm.Float.{F64}
use tail_kvm.Net.Protocol.{WireMessage}
use tail_kvm.ScreenSpace.Combined.{CursorState}
use tail_kvm.ScreenSpace.Clamp.{Monitor, clamp_to_rects}
use tail_kvm.Ime.Projection.{project_remote_to_local}
use tail_kvm.Forwarding.{
  Started, already_running, started, start_failed, start_mouse_hook_forwarding,
  stop_mouse_hook_forwarding, start_keyboard_hook_forwarding, stop_keyboard_hook_forwarding,
}
use tail_kvm.Seamless.{
  Note, mouse_hook_running, mouse_hook_started, keyboard_hook_running, keyboard_hook_started,
  keyboard_hook_failed, keyboard_hook_stopping, stopped, send, Shared, Engine, World, emit, note,
}

-- How a turn ends: the loop goes on, is left by `break`, or the thread panics.
pub data Outcome (o : F64) : Type 0 where
  go_on leave panicked : Engine o → Outcome o

-- The line of the mouse hook; a hook that does not start says nothing.
abbrev mouse_note : Started → Shared → Shared
mouse_note already_running s = note mouse_hook_running s
mouse_note started s = note mouse_hook_started s
mouse_note start_failed s = s

abbrev keyboard_note : Started → Note
keyboard_note already_running = keyboard_hook_running
keyboard_note started = keyboard_hook_started
keyboard_note start_failed = keyboard_hook_failed

unfoldable pub start_hooks : World → Shared → Shared
unfolding start_mouse_hook_forwarding start_keyboard_hook_forwarding
start_hooks w s =
    let (mouse, m) = start_mouse_hook_forwarding w.mouse_hook_ok s.mouse_hook in
    let s' = mouse_note m (record s { mouse_hook = mouse }) in
    let (keyboard, k) = start_keyboard_hook_forwarding w.keyboard_hook_ok s'.keyboard_hook in
    record s' { keyboard_hook = keyboard; last_event = keyboard_note k }

unfoldable pub stop_hooks : Shared → Shared
unfolding stop_mouse_hook_forwarding stop_keyboard_hook_forwarding
stop_hooks s = record s {
  mouse_hook = stop_mouse_hook_forwarding s.mouse_hook;
  keyboard_hook = stop_keyboard_hook_forwarding s.keyboard_hook;
  last_event = keyboard_hook_stopping;
}

-- `send_remote`, on what the slot holds.
abbrev pub send_remote : Option Bool → WireMessage → Shared → Shared
send_remote none m s = s
send_remote (some true) m s = emit (send m) s
send_remote (some false) m s = s

-- The clamp onto the monitors of the peer.
unfoldable pub clamp_state : List Monitor → CursorState → CursorState
clamp_state mons c = let (cx, cy) = clamp_to_rects c.x c.y mons in record c { x = cx; y = cy }

module _ (o : F64) where
  abbrev projected : ℤ × ℤ → ℤ → ℤ → Monitor → ℤ × ℤ
  projected (width, height) x y rect = project_remote_to_local o x y width height rect

  -- The closure `publish_anchor`.
  unfoldable pub anchor_of : Option Monitor → ℤ × ℤ → ℤ → ℤ → Option (ℤ × ℤ)
  anchor_of none size x y = none
  anchor_of (some rect) size x y = some (projected size x y rect)

  -- The statements by which control goes back to local input.
  unfoldable pub to_local : Engine o → Engine o
  unfolding stop_hooks
  to_local r = record r {
    remote_active = false;
    shared =
        record (stop_hooks (record r.shared { ime_anchor = none; remote_control_active = false })) {
          confined = none;
        };
  }

  -- After the loop.
  unfoldable pub finish : Engine o → Engine o
  unfolding stop_hooks
  finish r = record r {
    shared =
        record (stop_hooks
          (record r.shared { capture_running = false; ime_anchor = none; confined = none })) {
            remote_control_active = false;
            last_event = stopped;
          };
  }
