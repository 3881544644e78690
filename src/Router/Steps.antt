-- ===== src/Router/Steps.antt =====
-- What the turns of the router share: the hooks, the way back to the local screen, the anchor, and the
-- clamp onto the monitors of a peer (apps/tailkvm-ui/src-tauri/src/router.rs).
use Prim.Native.String.{String}
use tail_kvm.Base.{false, Option, none, some, List, [], ◌∷◌}
use tail_kvm.Base.Int.{ℤ}
use tail_kvm.Base.I32.{sub_i32, saturating_add_i32}
use tail_kvm.Float.{F64}
use tail_kvm.Net.Protocol.{mouse_set_position}
use tail_kvm.ScreenSpace.Types.{Rect}
use tail_kvm.ScreenSpace.Clamp.{Monitor, clamp_to_rects}
use tail_kvm.LayoutGraph.Space.{MultiScreenSpace, ScreenCursor, rect}
use tail_kvm.Ime.Projection.{project_remote_to_local}
use tail_kvm.Forwarding.{
  Started, already_running, started, start_failed, start_mouse_hook_forwarding,
  stop_mouse_hook_forwarding, start_keyboard_hook_forwarding, stop_keyboard_hook_forwarding,
}
use tail_kvm.Router.{
  RouterArgs, Note, mouse_hook_running, mouse_hook_started, mouse_hook_failed,
  keyboard_hook_running, keyboard_hook_started, keyboard_hook_failed, keyboard_hook_stopping,
  stopped, Sender, send, Shared, Router, World, emit,
}

-- How a turn ends: the loop goes on, is left by `break`, or the thread panics.
pub data Outcome : Type 0 where
  go_on leave panicked : Router → Outcome

abbrev mouse_note : Started → Note
mouse_note already_running = mouse_hook_running
mouse_note started = mouse_hook_started
mouse_note start_failed = mouse_hook_failed

abbrev keyboard_note : Started → Note
keyboard_note already_running = keyboard_hook_running
keyboard_note started = keyboard_hook_started
keyboard_note start_failed = keyboard_hook_failed

-- The closure `start_hooks`: a hook that does not start is only noted.
unfoldable pub start_hooks : World → Shared → Shared
unfolding start_mouse_hook_forwarding start_keyboard_hook_forwarding
start_hooks w s =
    let (mouse, m) = start_mouse_hook_forwarding w.mouse_hook_ok s.mouse_hook in
    let s' : Shared = record s { mouse_hook = mouse; last_event = mouse_note m } in
    let (keyboard, k) = start_keyboard_hook_forwarding w.keyboard_hook_ok s'.keyboard_hook in
    record s' { keyboard_hook = keyboard; last_event = keyboard_note k }

-- The closure `stop_hooks`.
unfoldable pub stop_hooks : Shared → Shared
unfolding stop_mouse_hook_forwarding stop_keyboard_hook_forwarding
stop_hooks s = record s {
  mouse_hook = stop_mouse_hook_forwarding s.mouse_hook;
  keyboard_hook = stop_keyboard_hook_forwarding s.keyboard_hook;
  last_event = keyboard_hook_stopping;
}

-- The statements by which the loop gives control back to the local screen: the slot is emptied, the
-- remote is inactive, the hooks stop, the pointer is free, and no anchor is left.
unfoldable pub to_local : RouterArgs → Note → Router → Router
unfolding stop_hooks
to_local a event r = record r {
  active = a.local_name;
  active_slot = none;
  shared = record (stop_hooks (record r.shared { remote_active = false })) {
    confined = none;
    ime_anchor = none;
    last_event = event;
  };
}

-- After the loop.
unfoldable pub finish : Router → Router
unfolding stop_hooks
finish r = record r {
  shared =
      record (stop_hooks
        (record r.shared { router_running = false; router_space = none; confined = none })) {
          ime_anchor = none;
          remote_active = false;
          last_event = stopped;
        };
}

-- The drained deltas of one turn, `(dx, dy)`, added up.
unfoldable pub drain : ℤ → ℤ → List (ℤ × ℤ) → ℤ × ℤ
unfolding saturating_add_i32
drain acc_x acc_y [] = (acc_x, acc_y)
drain acc_x acc_y ((dx, dy) ∷ deltas) =
    drain (saturating_add_i32 acc_x dx) (saturating_add_i32 acc_y dy) deltas

unfoldable pub clamp_cursor : List Monitor → ScreenCursor → ScreenCursor
clamp_cursor mons c = let (cx, cy) = clamp_to_rects c.x c.y mons in record c { x = cx; y = cy }

-- `if let Some(sender) = ... { sender.send(MouseSetPosition { .. }) }`
abbrev pub send_position : Option Sender → ScreenCursor → Shared → Shared
send_position none c s = s
send_position (some tx) c s = emit (send tx (mouse_set_position c.x c.y)) s

module _ (o : F64) where
  abbrev projected : ScreenCursor → Option Rect → Option Rect → Option (ℤ × ℤ)
  projected c (some local) (some remote) = some (
      project_remote_to_local o c.x c.y (sub_i32 remote.right remote.left)
        (sub_i32 remote.bottom remote.top) (local.left, local.top, local.right, local.bottom))
  projected c _ _ = none

  -- The argument of `set_anchor` while the remote screen `active` is controlled.
  unfoldable pub anchor_for : RouterArgs → MultiScreenSpace → String → ScreenCursor → Option (ℤ × ℤ)
  anchor_for a space active c = projected c (rect space a.local_name) (rect space active)
