-- ===== src/Router/Run.antt =====
-- `run_router` as a whole: its start, the loop over turns, and its end, with what the other threads do to
-- the shared state in between (apps/tailkvm-ui/src-tauri/src/router.rs).
use text.Mathlib.Text.{◌==◌ as str_eq}
use tail_kvm.Base.{Bool, true, false, ◌&&◌, Option, none, some, List, [], ◌∷◌, if◌then◌else◌}
use tail_kvm.Float.{F64}
use tail_kvm.Core.PushGate
use tail_kvm.ScreenSpace.Guard
use tail_kvm.ScreenSpace.Types.{Rect}
use tail_kvm.LayoutGraph.Space.{MultiScreenSpace, rect}
use tail_kvm.Forwarding.{stop_mouse_hook_forwarding, stop_keyboard_hook_forwarding}
use tail_kvm.Router.{
  RouterArgs, armed, failsafe, screen_removed, stop_requested, reconfigured, keyboard_failsafe,
  raw_input_unavailable, capture_stop_requested, tray_paused, emergency_reset, mouse_hook_stopping,
  keyboard_hook_stopping, Shared, Router, World, note,
}
use tail_kvm.Router.Steps.{Outcome, go_on, leave, panicked, to_local, finish}
use tail_kvm.Router.LocalTurn.{local_turn}
use tail_kvm.Router.RemoteTurn.{remote_turn}

-- The local variables before the loop.
unfoldable pub start : RouterArgs → Shared → Router
start a s = record {
  shared = note armed s;
  active = a.local_name;
  cursor = record { screen = a.local_name; x = a.lock_x; y = a.lock_y };
  switch_guard = Guard.new a.edge_dwell_ms a.interval_ms;
  push_gate = PushGate.new;
  link_down_since = none;
  active_slot = none;
}

abbrev removed : RouterArgs → Router → Option Rect → Router
removed a r none = to_local a screen_removed r
removed a r (some _) = r

-- A reconfiguration may have removed the screen that is controlled.
unfoldable pub drop_removed : RouterArgs → MultiScreenSpace → Router → Router
unfolding to_local
drop_removed a space r =
    if str_eq r.active a.local_name then r else removed a r (rect space r.active)

module _ (o : F64) where
  -- The turn on a live space.
  unfoldable pub turn_in : RouterArgs → World → MultiScreenSpace → Router → Outcome
  unfolding local_turn remote_turn
  turn_in a w space r =
      if str_eq r.active a.local_name then local_turn o a w space r else remote_turn o a w space r

  abbrev pub with_space : RouterArgs → World → Router → Option MultiScreenSpace → Outcome
  with_space a w r none = leave r
  with_space a w r (some space) = turn_in a w space (drop_removed a space r)

  -- The body of the loop.
  unfoldable pub turn : RouterArgs → World → Router → Outcome
  unfolding turn_in drop_removed
  turn a w r =
      if w.pause_pressed
      then leave (record r { shared = note failsafe r.shared })
      else with_space a w r r.shared.router_space

-- What the other threads do to the shared state between two turns: the stop command of the router, a
-- reconfiguration, the keyboard failsafe of the forwarding thread, the ends of the two forwarding threads,
-- `stop_mouse_capture`, the pause of the tray, `emergency_reset_all`, the commands that stop one of the hooks, and a controller
-- session at its return edge. The end of the mouse thread leaves its flag set if its channel was closed
-- by the hook. All else that writes here is `elsewhere`, which may leave any shared state behind:
-- `start_mouse_hook_capture`, `start_keyboard_hook_capture`, `start_mouse_capture` with the loops that it
-- spawns, and another router that was started once this one had been told to stop.
pub data Outside : Type 0 where
  stop_command failsafe_key keyboard_thread_ended capture_stopped paused emergency : Outside
  mouse_hook_stopped keyboard_hook_stopped remote_deactivated : Outside
  swap_space : MultiScreenSpace → Outside
  mouse_thread_ended : (flag_left : Bool) → Outside
  elsewhere : Shared → Outside

-- `pause_all_capture` and `emergency_reset_all` do not stop the router.
unfoldable pub pause_all_capture : Shared → Shared
unfolding stop_mouse_hook_forwarding stop_keyboard_hook_forwarding
pause_all_capture s = record s {
  remote_active = false;
  mouse_hook = stop_mouse_hook_forwarding s.mouse_hook;
  keyboard_hook = stop_keyboard_hook_forwarding s.keyboard_hook;
}

unfoldable pub interfere : Outside → Shared → Shared
unfolding stop_mouse_hook_forwarding stop_keyboard_hook_forwarding pause_all_capture
interfere (elsewhere s') s = s'
interfere capture_stopped s = record (pause_all_capture s) { last_event = capture_stop_requested }
interfere paused s = record (pause_all_capture s) { last_event = tray_paused }
interfere emergency s = record (pause_all_capture s) {
  confined = none;
  last_event = emergency_reset;
}
interfere mouse_hook_stopped s = record s {
  mouse_hook = stop_mouse_hook_forwarding s.mouse_hook;
  last_event = mouse_hook_stopping;
}
interfere keyboard_hook_stopped s = record s {
  keyboard_hook = stop_keyboard_hook_forwarding s.keyboard_hook;
  last_event = keyboard_hook_stopping;
}
interfere remote_deactivated s = record s { remote_active = false }
interfere stop_command s = record s {
  router_running = false;
  router_space = none;
  router_local_name = none;
  last_event = stop_requested;
}
interfere (swap_space space) s = record s { router_space = some space; last_event = reconfigured }
interfere failsafe_key s = record s {
  keyboard_hook = record s.keyboard_hook { running = false };
  router_running = false;
  mouse_hook = stop_mouse_hook_forwarding s.mouse_hook;
  remote_active = false;
  last_event = keyboard_failsafe;
}
interfere keyboard_thread_ended s = record s {
  keyboard_hook = record s.keyboard_hook { running = false; installed = false };
}
interfere (mouse_thread_ended flag_left) s = record s {
  mouse_hook = record s.mouse_hook {
    running = if flag_left then s.mouse_hook.running else false;
    installed = false;
  };
}

-- One event of a history: a turn of the loop, or what another thread does before it.
pub data Event : Type 0 where
  turned : World → Event
  meanwhile : Outside → Event

-- No other thread starts a hook or another capture of the machine's input.
abbrev pub is_calm_event : Event → Bool
is_calm_event (meanwhile (elsewhere s)) = false
is_calm_event _ = true

unfoldable pub is_calm : List Event → Bool
is_calm [] = true
is_calm (e ∷ es) = is_calm_event e && is_calm es

-- Where the router stands after a history. It is refused where Raw Input is not available.
pub data Standing : Type 0 where
  looping ended crashed : Router → Standing
  refused : Shared → Standing

abbrev pub settle : Outcome → Standing
settle (go_on r) = looping r
settle (leave r) = ended (finish r)
settle (panicked r) = crashed r

module _ (o : F64) where
  -- `while router_running { .. }`, and what follows it.
  unfoldable pub step : RouterArgs → World → Router → Standing
  unfolding turn finish
  step a w r = if r.shared.router_running then settle (turn o a w r) else ended (finish r)

  unfoldable pub advance : RouterArgs → Event → Router → Standing
  unfolding step interfere
  advance a (turned w) r = step a w r
  advance a (meanwhile e) r = looping (record r { shared = interfere e r.shared })

  unfoldable pub run : RouterArgs → Router → List Event → Standing
  unfolding advance
  run a r [] = looping r
  run a r (e ∷ es) = elim (advance a e r) [
    | looping r' ↦ run a r' es
    | ended r' ↦ ended r'
    | crashed r' ↦ crashed r'
    | refused s ↦ refused s
  ]

  -- `run_router`, with whether Raw Input can be captured.
  unfoldable pub run_router : Bool → RouterArgs → Shared → List Event → Standing
  unfolding start run
  run_router raw_ok a s es =
      if raw_ok
      then run a (start a s) es
      else refused (record s { router_running = false; last_event = raw_input_unavailable })
