-- ===== src/Seamless/Run.antt =====
-- The loop of the capture engine, and what other threads do to the shared state between its turns
-- (apps/tailkvm-ui/src-tauri/src/seamless.rs).
use tail_kvm.Base.{Bool, true, false, ◌&&◌, none, List, [], ◌∷◌, if◌then◌else◌}
use tail_kvm.Base.Int.{pos}
use tail_kvm.Float.{F64}
use tail_kvm.Core.PushGate
use tail_kvm.Core.PushGate.{Instant}
use tail_kvm.ScreenSpace.Types.{local, from_label}
use tail_kvm.ScreenSpace.Guard
use tail_kvm.ScreenSpace.Combined
use tail_kvm.Forwarding.{stop_mouse_hook_forwarding, stop_keyboard_hook_forwarding}
use tail_kvm.Seamless.{
  SeamlessArgs, armed, failsafe, raw_input_unavailable, keyboard_failsafe, emergency_reset,
  stop_requested, tray_paused, mouse_hook_stopping, keyboard_hook_stopping, Shared, Engine, World,
  note,
}
use tail_kvm.Seamless.Gain.{Carry, usable_gain}
use tail_kvm.Seamless.Steps.{Outcome, go_on, leave, panicked, finish}
use tail_kvm.Seamless.LocalTurn.{local_turn}
use tail_kvm.Seamless.RemoteTurn.{remote_turn}

-- What the other threads do between two turns: the stop command, the emergency reset, the keyboard failsafe of the forwarding thread, and the
-- ends of the two forwarding threads, the pause of the tray, the commands that stop one of the hooks, and a
-- controller session at its return edge. The end of the mouse thread leaves its flag set if its channel was
-- closed by the hook. All else that writes here is `elsewhere`, which may leave any shared state behind:
-- `start_mouse_hook_capture`, `start_keyboard_hook_capture`, the router, and another capture that was
-- started once this one had been told to stop.
pub data Outside : Type 0 where
  stop_command emergency failsafe_key keyboard_thread_ended paused : Outside
  mouse_hook_stopped keyboard_hook_stopped remote_deactivated : Outside
  mouse_thread_ended : (flag_left : Bool) → Outside
  elsewhere : Shared → Outside

unfoldable pub interfere : Outside → Shared → Shared
unfolding stop_mouse_hook_forwarding stop_keyboard_hook_forwarding
interfere (elsewhere s') s = s'
interfere paused s = record s {
  capture_running = false;
  remote_control_active = false;
  mouse_hook = stop_mouse_hook_forwarding s.mouse_hook;
  keyboard_hook = stop_keyboard_hook_forwarding s.keyboard_hook;
  last_event = tray_paused;
}
interfere mouse_hook_stopped s = record s {
  mouse_hook = stop_mouse_hook_forwarding s.mouse_hook;
  last_event = mouse_hook_stopping;
}
interfere keyboard_hook_stopped s = record s {
  keyboard_hook = stop_keyboard_hook_forwarding s.keyboard_hook;
  last_event = keyboard_hook_stopping;
}
interfere remote_deactivated s = record s { remote_control_active = false }
interfere stop_command s = record s {
  capture_running = false;
  mouse_hook = stop_mouse_hook_forwarding s.mouse_hook;
  keyboard_hook = stop_keyboard_hook_forwarding s.keyboard_hook;
  remote_control_active = false;
  last_event = stop_requested;
}
interfere emergency s = record s {
  capture_running = false;
  remote_control_active = false;
  mouse_hook = stop_mouse_hook_forwarding s.mouse_hook;
  keyboard_hook = stop_keyboard_hook_forwarding s.keyboard_hook;
  confined = none;
  last_event = emergency_reset;
}
interfere failsafe_key s = record s {
  keyboard_hook = record s.keyboard_hook { running = false };
  capture_running = false;
  mouse_hook = stop_mouse_hook_forwarding s.mouse_hook;
  remote_control_active = false;
  last_event = keyboard_failsafe;
}
interfere keyboard_thread_ended s = record s {
  keyboard_hook = record s.keyboard_hook { running = false; installed = false };
}
interfere (mouse_thread_ended flag_left) s = record s {
  mouse_hook = record s.mouse_hook {
    running = if flag_left then s.mouse_hook.running else false;
    installed = false;
  };
}

-- One event of a history: a turn of the loop, or what another thread does before it.
pub data Event : Type 0 where
  turned : World → Event
  meanwhile : Outside → Event

-- No other thread starts a hook or another capture of the machine's input.
abbrev pub is_calm_event : Event → Bool
is_calm_event (meanwhile (elsewhere s)) = false
is_calm_event _ = true

unfoldable pub is_calm : List Event → Bool
is_calm [] = true
is_calm (e ∷ es) = is_calm_event e && is_calm es

-- Where the engine stands after a history. It is refused where Raw Input is not available.
pub data Standing (o : F64) : Type 0 where
  looping ended crashed : Engine o → Standing o
  refused : Shared → Standing o

module _ (o : F64) (k : Carry o) where
  -- The local variables before the loop; `gain` is the configured one, `now` the start.
  unfoldable pub start : SeamlessArgs → o.Carrier → Instant → Shared → Engine o
  unfolding usable_gain from_label Combined.new
  start a gain now s = record {
    shared = record s { role = "controller"; connected = true; last_event = armed };
    combined =
        Combined.new a.local_rect
          (record { left = pos 0; top = pos 0; right = a.remote_width; bottom = a.remote_height })
          (from_label a.switch_edge);
    switch_guard = Guard.new a.edge_dwell_ms a.interval_ms;
    state = record { region = local; x = a.lock_x; y = a.lock_y };
    remote_active = false;
    sent_count = 0;
    anchor_local_rect = none;
    anchor_remote_size = (a.remote_width, a.remote_height);
    peer_monitors = [];
    push_gate = PushGate.new;
    link_down_since = none;
    last_send = now;
    gain = usable_gain o k gain;
    frac_x = o.of_i32 (pos 0);
    frac_y = o.of_i32 (pos 0);
  }

  unfoldable pub turn : SeamlessArgs → World → Engine o → Outcome o
  unfolding local_turn remote_turn
  turn a w r =
      if w.pause_pressed
      then leave (record r { shared = note failsafe r.shared })
      else if r.remote_active
      then remote_turn o k a w r
      else local_turn o a w r

  abbrev pub settle : Outcome o → Standing o
  settle (go_on r) = looping r
  settle (leave r) = ended (finish o r)
  settle (panicked r) = crashed r

  -- `while capture_running { .. }`, and what follows it.
  unfoldable pub step : SeamlessArgs → World → Engine o → Standing o
  unfolding turn finish
  step a w r = if r.shared.capture_running then settle (turn a w r) else ended (finish o r)

  unfoldable pub advance : SeamlessArgs → Event → Engine o → Standing o
  unfolding step interfere
  advance a (turned w) r = step a w r
  advance a (meanwhile e) r = looping (record r { shared = interfere e r.shared })

  unfoldable pub run : SeamlessArgs → Engine o → List Event → Standing o
  unfolding advance
  run a r [] = looping r
  run a r (e ∷ es) = elim (advance a e r) [
    | looping r' ↦ run a r' es
    | ended r' ↦ ended r'
    | crashed r' ↦ crashed r'
    | refused s ↦ refused s
  ]

  -- `run_seamless_capture`, with whether Raw Input can be captured.
  unfoldable pub run_seamless_capture :
      Bool → SeamlessArgs → o.Carrier → Instant → Shared → List Event → Standing o
  unfolding start run
  run_seamless_capture raw_ok a gain now s es =
      if raw_ok
      then run a (start a gain now s) es
      else refused (record s { capture_running = false; last_event = raw_input_unavailable })
