-- ===== src/Forwarding/Mouse.antt =====
-- The mouse forwarding thread that `start_mouse_hook_forwarding` of
-- apps/tailkvm-ui/src-tauri/src/forwarding.rs spawns: its loop turn by turn, and its end.
use Prim.Native.String.{String}
use tail_kvm.Base.{
  ℕ, ◌+◌, ◌%◌, ◌^◌, Bool, true, false, Option, none, List, [], ◌∷◌, ◌++◌, map, if◌then◌else◌,
}
use tail_kvm.Base.Int.{ℤ}
use tail_kvm.Net.Protocol.{WireMessage, mouse_button, mouse_wheel}
use tail_kvm.Session.Held.{track_button_press}
use tail_kvm.Forwarding.{
  MouseHook, SenderTarget, send_ok, active_target_present, Instant, watch_target, is_stale,
  stop_mouse_hook_forwarding,
}
use tail_kvm.Forwarding.Health
use tail_kvm.Forwarding.Health.{Health, Probe, Checked, not_due, checked, lost, check_health}
use tail_kvm.Forwarding.Log.{release_button}

pub data MouseHookEvent : Type 0 where
  button : (name : String) (down : Bool) → MouseHookEvent
  wheel : (delta : ℤ) (horizontal : Bool) → MouseHookEvent

-- `recv_timeout`
pub data Received : Type 0 where
  event : MouseHookEvent → Received
  timeout disconnected : Received

-- The texts of `last_event`.
pub data Note : Type 0 where
  target_vanished reinstalled lost_hook marker_degraded channel_closed started : Note
  stopped : (events : ℕ) → Note
  forwarded : (count : ℕ) (message : WireMessage) → Note

-- What a turn finds. The target is read twice, at the test and for the send.
pub record World : Type 0 where
  pub target : SenderTarget
  pub target' : SenderTarget
  pub now : Instant
  pub now' : Instant
  pub probe : Probe
  pub received : Received

-- The local variables, the shared flag and slot of the hook, the fields of the snapshot that the thread
-- writes, and the messages that it has tried to send, in order.
pub record Mouse : Type 0 where
  pub hook : MouseHook
  pub event_count : ℕ
  pub pressed_buttons : List String
  pub health : Health
  pub active_absent_since : Option Instant
  pub role : String
  pub connected : Bool
  pub last_event : Note
  pub sends : List WireMessage

pub data Outcome : Type 0 where
  go_on leave : Mouse → Outcome

abbrev note : Note → Mouse → Mouse
note n m = record m { last_event = n }

abbrev clear_flag : Mouse → Mouse
clear_flag m = record m { hook = record m.hook { running = false } }

-- The message of an event, after it has been tracked.
unfoldable pub message_of : MouseHookEvent → WireMessage
message_of (button name down) = mouse_button name down
message_of (wheel delta horizontal) = mouse_wheel delta horizontal

unfoldable pub tracked : List String → MouseHookEvent → List String
unfolding track_button_press
tracked pressed (button name down) = track_button_press pressed name down
tracked pressed (wheel delta horizontal) = pressed

unfoldable pub forward : World → Mouse → MouseHookEvent → Outcome
unfolding message_of tracked send_ok
forward w m e =
    let message = message_of e in
    let sent : Mouse = record m {
      pressed_buttons = tracked m.pressed_buttons e;
      sends = m.sends ++ (message ∷ []);
    } in
    let count = (m.event_count + 1) % 2 ^ 64 in
    if send_ok w.target'
    then go_on (record sent {
      event_count = count;
      role = "controller";
      connected = true;
      last_event = forwarded count message;
    })
    else leave (clear_flag (record sent { connected = false; last_event = channel_closed }))

abbrev pub receive : World → Mouse → Received → Outcome
receive w m timeout = go_on m
receive w m disconnected = leave m
receive w m (event e) = forward w m e

-- The hook in its slot after a check, and what the check reports.
abbrev pub checked_hook : World → Mouse → Health × Checked → Outcome
checked_hook w m (h, not_due) = receive w (record m { health = h }) w.received
checked_hook w m (h, lost) = leave (record m {
  health = h;
  hook = record { running = false; installed = false };
  last_event = lost_hook;
})
checked_hook w m (h, checked anew warned) =
    let kept : Mouse = record m {
      health = h;
      hook = if anew then record m.hook { installed = true } else m.hook;
      last_event = if warned then marker_degraded else if anew then reinstalled else m.last_event;
    } in
    receive w kept w.received

unfoldable pub turn : World → Mouse → Outcome
unfolding active_target_present watch_target check_health forward
turn w m =
    let absent = watch_target (active_target_present w.target) w.now m.active_absent_since in
    let watched : Mouse = record m { active_absent_since = absent } in
    if is_stale absent w.now'
    then leave (clear_flag (note target_vanished watched))
    else checked_hook w watched (check_health w.probe m.health)

-- After the loop the hook is taken out and every held button is released.
unfoldable pub finish : Mouse → Mouse
finish m = record m {
  hook = record m.hook { installed = false };
  pressed_buttons = [];
  sends = m.sends ++ map release_button m.pressed_buttons;
  last_event = stopped m.event_count;
}

-- The thread at the start of its loop, after the hook has been installed.
unfoldable pub begin : Mouse → Instant → ℕ → Mouse
begin before now seen = record before {
  hook = record { running = true; installed = true };
  event_count = 0;
  pressed_buttons = [];
  health = Health.fresh now seen;
  active_absent_since = none;
  last_event = started;
  sends = [];
}

-- A history: turns of the loop, and calls of `stop_mouse_hook_forwarding` by other threads.
pub data Event : Type 0 where
  turned : World → Event
  stop_called : Event

pub data Standing : Type 0 where
  looping ended : Mouse → Standing

abbrev pub settle : Outcome → Standing
settle (go_on m) = looping m
settle (leave m) = ended (finish m)

-- `while mouse_hook_running { .. }`, and what follows it.
unfoldable pub advance : Event → Mouse → Standing
unfolding turn finish stop_mouse_hook_forwarding
advance (turned w) m = if m.hook.running then settle (turn w m) else ended (finish m)
advance stop_called m = looping (record m { hook = stop_mouse_hook_forwarding m.hook })

unfoldable pub run : Mouse → List Event → Standing
unfolding advance
run m [] = looping m
run m (e ∷ es) = elim (advance e m) [ looping m' ↦ run m' es | ended m' ↦ ended m' ]
