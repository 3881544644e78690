-- ===== src/Legacy/Tests.antt =====
-- An entry through the right edge, a jump of the pointer, and a fast move
-- (apps/tailkvm-ui/src-tauri/src/legacy_capture.rs).
use tail_kvm.Base.{true, false, some, List, [], ◌∷◌}
use tail_kvm.Base.Int.{pos}
use tail_kvm.Base.I32.{i32_laws}
use tail_kvm.Float.Fixed.{fixed}
use tail_kvm.Core.Geometry.Return.{HasMargins}
use tail_kvm.Legacy.{CaptureArgs, armed, Shared, World}
use tail_kvm.Legacy.Turn.{start, run}
use tail_kvm.Legacy.Moves.{IsTame, run-IsTame}

abbrev args : CaptureArgs
args = record {
  remote_mode = true;
  has_raw = false;
  switch_edge = "right";
  edge_margin = pos 3;
  remote_width = pos 1366;
  remote_height = pos 768;
  max_delta = pos 80;
  virtual_screen = record {
    left = pos 0;
    top = pos 0;
    right = pos 1920;
    bottom = pos 1080;
    width = pos 1920;
    height = pos 1080;
  };
  lock_x = pos 960;
  lock_y = pos 540;
}

abbrev idle : Shared
idle = record {
  capture_running = true;
  remote_control_active = false;
  mouse_hook = record { running = false; installed = false };
  keyboard_hook = record { running = false; installed = false; generation = 4 };
  role = "controller";
  connected = true;
  last_event = armed;
  effects = [];
}

abbrev at_edge : World
at_edge = record {
  running = true;
  pause_pressed = false;
  cursor_position = some (record { x = pos 1919; y = pos 540 });
  raw_deltas = [];
  send_ok = true;
  mouse_hook_ok = true;
  keyboard_hook_ok = true;
}

abbrev fast : World
fast = record at_edge { cursor_position = some (record { x = pos 1160; y = pos 560 }) }

abbrev stopping : World
stopping = record fast { running = false }

gain_two : fixed.Carrier
unfolding fixed
gain_two = pos 131072

abbrev history : List World
history = at_edge ∷ at_edge ∷ at_edge ∷ at_edge ∷ fast ∷ stopping ∷ []

args-HasMargins : HasMargins args.virtual_screen args.edge_margin
args-HasMargins = record {
  left_fits = omega i32_laws;
  top_fits = omega i32_laws;
  right_fits = omega i32_laws;
  bottom_fits = omega i32_laws;
  margin_fits = omega i32_laws;
  wide = omega i32_laws;
  tall = omega i32_laws;
}

run-IsTame_example : IsTame (pos 80) (run fixed args gain_two (start args idle) history)
unfolding start
run-IsTame_example =
    run-IsTame fixed args gain_two (start args idle) history (omega i32_laws) (omega i32_laws)
      args-HasMargins tt
