-- ===== src/Forwarding/Tests.antt =====
-- A click and a shortcut forwarded while the router switches the target away
-- (apps/tailkvm-ui/src-tauri/src/forwarding.rs).
use tail_kvm.Base.{◌≡◌, refl, true, false, none, some, List, [], ◌∷◌, arith}
use tail_kvm.Base.Int.{pos}
use tail_kvm.Ime.Mode.{off}
use tail_kvm.Forwarding.{active}
use tail_kvm.Forwarding.Health
use tail_kvm.Forwarding.Health.{Health, Probe, is_noticed_in, lost_hook-is_noticed_in}
use tail_kvm.Forwarding.Mouse
use tail_kvm.Forwarding.Mouse.{Mouse, button}
use tail_kvm.Forwarding.MouseRelease
use tail_kvm.Forwarding.MouseRelease.{KeepsButtons}
use tail_kvm.Forwarding.Keyboard
use tail_kvm.Forwarding.Keyboard.{Keyboard, key, failsafe}
use tail_kvm.Forwarding.KeyboardTurn
use tail_kvm.Forwarding.KeyboardRelease
use tail_kvm.Forwarding.KeyboardRelease.{KeepsKeys}

-- A check two seconds on, with a marker that the hook does not see.
abbrev probe : Probe
probe = record {
  now = 2000000000;
  seen = 3;
  reinstall_ok = true;
  seen_anew = 3;
  inject_ok = true;
  now_done = 2000000000;
}

lost_hook-is_noticed_in_example :
    is_noticed_in (probe ∷ probe ∷ probe ∷ probe ∷ []) (Health.fresh 0 1) ≡ true
lost_hook-is_noticed_in_example =
    lost_hook-is_noticed_in probe probe probe probe (Health.fresh 0 1) (omega arith)
      (refl, refl, (refl, refl, (refl, refl, (refl, refl, tt))))

abbrev mouse : Mouse
mouse = record {
  hook = record { running = true; installed = true };
  event_count = 0;
  pressed_buttons = [];
  health = Health.fresh 0 0;
  active_absent_since = none;
  role = "controller";
  connected = true;
  last_event = Mouse.started;
  sends = [];
}

abbrev press : Mouse.World
press = record {
  target = active (some true);
  target' = active (some true);
  now = 5;
  now' = 6;
  probe = probe;
  received = Mouse.event (button "left" true);
}

-- The session closes before the next event, with the button down.
abbrev wheel_lost : Mouse.World
wheel_lost = record press {
  target' = active (some false);
  received = Mouse.event (Mouse.wheel (pos 120) false);
}

abbrev clicks : List Mouse.Event
clicks = Mouse.turned press ∷ Mouse.turned wheel_lost ∷ Mouse.stop_called ∷ []

run-KeepsButtons_example : KeepsButtons clicks (Mouse.run (Mouse.begin mouse 0 1) clicks)
run-KeepsButtons_example = MouseRelease.run-KeepsButtons mouse 0 1 clicks

abbrev keyboard : Keyboard
keyboard = record {
  hook = record { running = true; installed = true; generation = 4 };
  my_gen = 4;
  passthrough = true;
  capture_running = true;
  mouse_hook = record { running = true; installed = true };
  remote_active = true;
  event_count = 0;
  pressed_keys = [];
  ctrl_down = false;
  alt_down = false;
  win_down = false;
  shift_down = false;
  health = Health.fresh 0 0;
  ime_capture = false;
  ime_toggle_held = false;
  ime_mode = off;
  ime_window_anchor = (pos 0, pos 0);
  ime_anchor_checked = 0;
  active_absent_since = none;
  role = "controller";
  connected = true;
  shown_mode = "off";
  last_event = Keyboard.started;
  sends = [];
}

-- Ctrl goes down.
abbrev ctrl : Keyboard.World
ctrl = record {
  target = active (some true);
  target' = active (some true);
  now = 5;
  now' = 6;
  now_anchor = 6;
  now_checked = 6;
  now_entered = 7;
  commits = [];
  is_composing = false;
  is_composing' = false;
  resolve_characters = true;
  settings = record {
    candidate_position_mode = "lock_near";
    ime_open_policy = "manual";
    conversion_mode_policy = "preserve";
    focus_failure_policy = "retry";
    fixed_x = pos 0;
    fixed_y = pos 0;
    capture_window_size = pos 1;
    lock_near_offset = pos 24;
  };
  ime_anchor = none;
  desktop = record {
    cursor = some (pos 960, pos 540);
    monitor_rect_at_point = λ _ _. (pos 0, pos 0, pos 1920, pos 1080);
  };
  capture_ok = true;
  focus_acquired = true;
  state_saved = true;
  caps_toggled = false;
  resolve_key_text = λ _ _ _ _. some "a";
  probe = probe;
  received = Keyboard.event (key 0x11 0x1D true false);
}

-- The toggle key, and then the failsafe.
abbrev kanji : Keyboard.World
kanji = record ctrl { received = Keyboard.event (key 0x19 0x29 true false) }

abbrev pause : Keyboard.World
pause = record ctrl { commits = "あ" ∷ []; received = Keyboard.event failsafe }

abbrev keys : List KeyboardTurn.Event
keys =
    KeyboardTurn.turned ctrl
    ∷ KeyboardTurn.turned kanji
    ∷ KeyboardTurn.start_called true
    ∷ KeyboardTurn.turned pause
    ∷ []

run-KeepsKeys_example :
    KeepsKeys (KeyboardTurn.run (KeyboardTurn.begin keyboard (false, false, false, false) 0 1) keys)
run-KeepsKeys_example =
    KeyboardRelease.run-KeepsKeys keyboard (false, false, false, false) 0 1 keys (omega arith)
