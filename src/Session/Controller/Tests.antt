-- ===== src/Session/Controller/Tests.antt =====
-- A controller session that starts, writes its queue and beats, and the clipboard hub.
use tail_kvm.Base.{◌+◌, ◌*◌, ◌<◌, ◌≡◌, refl, true, false, none, some, List, [], ◌∷◌, ◌++◌}
use tail_kvm.Base.Int.{pos}
use tail_kvm.Base.Dict.{string_eq}
use tail_kvm.Net.Protocol.{WireMessage, heartbeat_ack, mouse_set_position, mouse_button}
use tail_kvm.Session.Coalesce.{push_coalesced, last_of_runs}
use tail_kvm.Session.Relay.{Peer}
use tail_kvm.Session.Controller.{
  closed, Snapshot, Session, World, Event, received, heartbeat_tick, commands,
}
use tail_kvm.Session.Controller.Turn.{turn, run}
use tail_kvm.Session.Controller.Watchdog.{last_arrival, run_watchdog}
use tail_kvm.Session.Controller.Commands.{commands_of, turn_commands}

abbrev peers : List Peer
peers = ("laptop", some true) ∷ ("tower", some true) ∷ ("tablet", none) ∷ []

abbrev world : World
world = record {
  now = 5000000000;
  unix_ms = 1700000000000;
  machine_name = "desk";
  app_version = "0.1.0";
  auth_token = some "secret";
  keyboard = record {
    language_id = 1041;
    keyboard_type = pos 7;
    is_jis_keyboard = true;
    is_japanese_locale = true;
    label = "jis";
  };
  remote = record {
    active = false;
    switch_edge = "right";
    remote_width = pos 1920;
    remote_height = pos 1080;
    edge_margin = pos 3;
    seamless = false;
  };
  sessions = peers;
  origin_name = "laptop";
  write_ok = λ _. true;
  decode_base64 = λ _. none;
}

abbrev before : Snapshot
before = record {
  role = "none";
  connected = false;
  peer_addr = none;
  peer_name = none;
  heartbeat_seq = 0;
  last_heartbeat_ms = none;
  local_keyboard_layout = none;
  peer_keyboard_layout = none;
  keyboard_layout_warning = none;
  last_event = closed;
}

abbrev turns : List (World × Event)
turns =
    (world, heartbeat_tick) ∷ (world, received (heartbeat_ack 1 0)) ∷ (world, heartbeat_tick) ∷ []

abbrev opened : Session
opened = record { heartbeat_seq = 0; last_inbound = 4000000000; snapshot = before; effects = [] }

still_on : (run opened (turns ++ ((world, heartbeat_tick) ∷ []))).1 ≡ false
unfolding run
still_on = refl

run_watchdog_example : 5000000000 < last_arrival 4000000000 turns + 8000 * 1000000
run_watchdog_example = run_watchdog opened turns world still_on

abbrev first : WireMessage
first = mouse_set_position (pos 1) (pos 1)

abbrev queued : List WireMessage
queued = mouse_set_position (pos 2) (pos 2) ∷ mouse_button "left" true ∷ []

goes_on : (turn world opened (commands first queued)).1 ≡ true
unfolding turn push_coalesced
goes_on = refl

turn_commands_example :
    commands_of (turn world opened (commands first queued)).0.effects
    ≡ commands_of opened.effects ++ last_of_runs (first ∷ queued)
turn_commands_example = turn_commands world opened first queued goes_on
