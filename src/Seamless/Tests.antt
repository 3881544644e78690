-- ===== src/Seamless/Tests.antt =====
-- A crossing to a laptop on the right and back, and a link that comes and goes
-- (apps/tailkvm-ui/src-tauri/src/seamless.rs).
use tail_kvm.Base.{◌/◌, ◌≡◌, refl, Bool, true, false, none, some, List, [], ◌∷◌}
use tail_kvm.Base.Int.{pos, ◌+ℤ◌, ◌-ℤ◌, pos_part, neg_part}
use tail_kvm.Base.I32.{i32_laws}
use tail_kvm.Float.Fixed.{fixed}
use tail_kvm.Seamless.{SeamlessArgs, Shared, World, armed}
use tail_kvm.Seamless.Gain.{Carry}
use tail_kvm.ScreenSpace.Combined
use tail_kvm.ScreenSpace.Guard
use tail_kvm.Core.PushGate
use tail_kvm.Core.PushGate.{is_fresh, record_delta}
use tail_kvm.Seamless.Run.{
  Standing, looping, ended, crashed, refused, Event, turned, meanwhile, mouse_thread_ended, is_calm,
  run_seamless_capture,
}
use tail_kvm.Seamless.Home.{IsWorld}
use tail_kvm.Seamless.Safety.{IsSafe, run_seamless_capture-IsSafe}

-- Fixed point, in units of 1 / 65536, for the deltas of the tests.
carry : Carry fixed
unfolding fixed
carry = record {
  add = λ x y. x +ℤ y;
  sub = λ x y. x -ℤ y;
  trunc_i32 = λ x. pos (pos_part x / 65536) -ℤ pos (neg_part x / 65536);
  is_finite = λ x. true;
}

abbrev args : SeamlessArgs
args = record {
  attach_monitor = none;
  peer_rect = some (pos 1920, pos 0, pos 3286, pos 768);
  local_monitors = (pos 0, pos 0, pos 1920, pos 1080) ∷ [];
  local_rect = record { left = pos 0; top = pos 0; right = pos 1920; bottom = pos 1080 };
  lock_x = pos 960;
  lock_y = pos 540;
  switch_edge = "right";
  edge_margin = pos 3;
  remote_width = pos 1366;
  remote_height = pos 768;
  interval_ms = 8;
  edge_dwell_ms = 0;
  dead_corner_px = pos 0;
}

abbrev idle : Shared
idle = record {
  capture_running = true;
  remote_control_active = false;
  ime_anchor = none;
  mouse_hook = record { running = false; installed = false };
  keyboard_hook = record { running = false; installed = false; generation = 4 };
  confined = none;
  role = "controller";
  connected = true;
  last_event = armed;
  effects = [];
}

-- A gain of 1.0.
gain_one : fixed.Carrier
unfolding fixed
gain_one = pos 65536

-- The cursor rests at the right edge, and the user pushes on.
abbrev push : World
push = record {
  pause_pressed = false;
  cursor_position = some (pos 1919, pos 540);
  monitor = (pos 0, pos 0, pos 1920, pos 1080);
  raw_deltas = (pos 5, pos 0) ∷ [];
  peer_name = none;
  screen_sizes = [];
  sender_slot = some true;
  sender_slot' = some true;
  now = 1000000000;
  now' = 1000001000;
  now_sent = 1000002000;
  now_done = 1000002000;
  mouse_hook_ok = true;
  keyboard_hook_ok = true;
  confine_ok = true;
}

push-IsWorld : IsWorld args push
unfolding Combined.new
push-IsWorld e = record {
  local_screen = omega i32_laws;
  remote_screen = omega i32_laws;
  inset_nonneg = omega i32_laws;
  inset_fits = omega i32_laws;
  local_room = omega i32_laws;
  remote_room = omega i32_laws;
}

-- The link is down for one turn, and back at the next; the mouse is at rest.
abbrev down : World
down = record push { sender_slot = none; sender_slot' = none; raw_deltas = []; now' = 1000001000 }

abbrev still : World
still = record push { raw_deltas = []; now = 2600000000; now' = 2600000000 }

abbrev history : List Event
history = turned push ∷ meanwhile (mouse_thread_ended true) ∷ turned down ∷ turned still ∷ []

run_seamless_capture-IsSafe_example :
    IsSafe
      (is_calm history)
      fixed
      (run_seamless_capture fixed carry true args gain_one 0 idle history)
run_seamless_capture-IsSafe_example =
    run_seamless_capture-IsSafe fixed carry args true gain_one 0 idle history
      (refl, refl, refl, refl, refl, refl, refl) (push-IsWorld, (push-IsWorld, (push-IsWorld, tt)))

is_remote : Standing fixed → Bool
is_remote (looping r) = r.remote_active
is_remote (ended r) = r.remote_active
is_remote (crashed r) = r.remote_active
is_remote (refused s) = false

-- The crossing, and a link that came back in time: control goes home all the same, 1.5 s after the link
-- was seen down, since only a message that is sent disarms the watchdog.
enters :
    is_remote (run_seamless_capture fixed carry true args gain_one 0 idle (turned push ∷ [])) ≡ true
unfolding run_seamless_capture is_remote fixed gain_one is_fresh record_delta PushGate.new Guard.new
    carry
enters = refl

blip_returns :
    is_remote (run_seamless_capture fixed carry true args gain_one 0 idle history) ≡ false
unfolding run_seamless_capture is_remote fixed gain_one is_fresh record_delta PushGate.new Guard.new
    carry
blip_returns = refl
