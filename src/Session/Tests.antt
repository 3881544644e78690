-- ===== src/Session/Tests.antt =====
-- One session of each component of apps/tailkvm-ui/src-tauri/src/session, at concrete input.
use tail_kvm.Session.Trim.{trim}
use tail_kvm.Session.Receiver.Report.{hello_authorized}
use tail_kvm.Session.Commands.{App, idle, set_auth_token}
use tail_kvm.Session.Commands.Named.{IsServed}
use tail_kvm.Session.Commands.Screens.{
  Command, connect, disconnect, obey_all, obey_all-IsServed, no_sessions-IsServed,
}
use tail_kvm.Session.Commands.Pairing.{hello_authorized-set_auth_token}
use tail_kvm.Base.{
  ◌↔◌, ◌⊎◌, none, some, false, true, refl, ◌≡◌, [], List, map, ◌≤◌, Bool, ◌&&◌, ◌∷◌, arith,
}
use Prim.Native.String.{String}
use tail_kvm.Base.Int.{pos}
use tail_kvm.Base.Dict.{string_eq}
use tail_kvm.Net.Protocol.{
  WireMessage, hello, mouse_set_position, mouse_move, mouse_button, keyboard_key,
}
use tail_kvm.Session.Lines.{Source, pending, chunk, cancelled, read_capped_line}
use tail_kvm.Session.Lines.Resume.{
  then_more, kept, read_capped_line_resume, read_capped_line_bounds,
}
use tail_kvm.Session.Lines.Reads.{bytes_of, ending, read_bytes, Agree, read_capped_line-read_bytes}
use tail_kvm.Session.Coalesce.{push_all, last_of_runs, push_all-last_of_runs}
use tail_kvm.Session.Backoff.{backoff_start_secs, doubled_delays}
use tail_kvm.Session.Supervisor.{Round, supervise, reported, AllOn, supervise-doubled_delays}
use tail_kvm.Session.Receiver.{closed, Snapshot, World, Event, received, end_of_stream}
use tail_kvm.Session.Receiver.Report.{hello_authorized}
use tail_kvm.Session.Receiver.Turn.{start, run}
use tail_kvm.Session.Receiver.Gate.{IsQuiet, run-IsQuiet}
use tail_kvm.Session.Receiver.Release.{IsReleased, run-IsReleased}

-- "hi" arrives, and then nothing for a while.
abbrev half : Source
half = chunk 104 (105 ∷ []) pending

-- "!", the end of the line, and the first byte of the next.
abbrev other_half : Source
other_half = chunk 33 (10 ∷ 97 ∷ []) pending

half_kept : read_capped_line 16 half [] ≡ (cancelled, 104 ∷ 105 ∷ [], pending)
unfolding read_capped_line
half_kept = refl

read_capped_line_resume_example :
    read_capped_line 16 (then_more half other_half) []
    ≡ read_capped_line 16 other_half (104 ∷ 105 ∷ [])
read_capped_line_resume_example =
    read_capped_line_resume 16 half other_half [] (104 ∷ 105 ∷ []) pending half_kept

read_capped_line_bounds_example : kept (read_capped_line 16 half []) ≤ 16
read_capped_line_bounds_example = read_capped_line_bounds 16 half [] (omega arith)

read_capped_line-read_bytes_example :
    Agree
      (read_capped_line 16 other_half (104 ∷ []))
      (read_bytes 16 (bytes_of other_half) (ending other_half) (104 ∷ []))
read_capped_line-read_bytes_example =
    read_capped_line-read_bytes 16 other_half (104 ∷ []) (omega arith)

abbrev queue : List WireMessage
queue =
    mouse_set_position (pos 1) (pos 1)
    ∷ mouse_set_position (pos 2) (pos 2)
    ∷ mouse_button "left" true
    ∷ mouse_move (pos 3) (pos 0)
    ∷ mouse_move (pos 4) (pos 0)
    ∷ []

push_all-last_of_runs_example : push_all [] queue ≡ last_of_runs queue
push_all-last_of_runs_example = push_all-last_of_runs queue

abbrev presses : List (String × Bool)
presses = ("left", true) ∷ ("right", true) ∷ ("left", true) ∷ ("left", false) ∷ []

-- A short session, a long one and a short one, all wanted.
abbrev rounds : List Round
rounds =
    record { on_before = true; session_secs = 3; on_after = true; on_waiting = true ∷ [] }
    ∷ record { on_before = true; session_secs = 40; on_after = true; on_waiting = true ∷ [] }
    ∷ record { on_before = true; session_secs = 1; on_after = true; on_waiting = true ∷ false ∷ [] }
    ∷ []

rounds-AllOn : AllOn rounds
rounds-AllOn = (refl, refl, (refl, refl, (refl, refl, tt)))

supervise-doubled_delays_example :
    reported (supervise backoff_start_secs rounds)
    ≡ doubled_delays 0 (map (λ r. r.session_secs) rounds)
supervise-doubled_delays_example = supervise-doubled_delays rounds rounds-AllOn

-- A machine that accepts connections which present the token, and whose calls succeed.
abbrev world : World
world = record {
  now = 5000000000;
  unix_ms = 1700000000000;
  machine_name = "desk";
  accepting = true;
  required_token = some "secret";
  abort = false;
  pause_pressed = false;
  keyboard = record {
    language_id = 1041;
    keyboard_type = pos 7;
    is_jis_keyboard = true;
    is_japanese_locale = true;
    label = "jis";
  };
  topology = none;
  cursor = some (pos 10, pos 20);
  write_ok = λ _. true;
  inject_error = λ _. none;
  set_text_ok = λ _. true;
  set_dib_ok = λ _. true;
  decode_base64 = λ _. none;
}

abbrev before : Snapshot
before = record {
  role = "none";
  connected = false;
  peer_addr = none;
  peer_name = none;
  heartbeat_seq = 0;
  last_heartbeat_ms = none;
  local_keyboard_layout = none;
  peer_keyboard_layout = none;
  keyboard_layout_warning = none;
  last_event = closed;
}

abbrev intruder : List (World × Event)
intruder =
    (world, received (keyboard_key 65 30 true false))
    ∷ (world, received (hello "mallory" "1.0" (some "guess") 1))
    ∷ (world, received (mouse_button "left" true))
    ∷ []

wrong_token : (true && hello_authorized (some "secret") (some "guess")) ≡ false
unfolding hello_authorized
wrong_token = refl

run-IsQuiet_example : IsQuiet (run (start before "10.0.0.9:1") intruder).0
run-IsQuiet_example = run-IsQuiet before "10.0.0.9:1" intruder (tt, (wrong_token, (tt, tt)))

abbrev cut_off : List (World × Event)
cut_off =
    (world, received (hello "laptop" "1.0" (some "secret") 1))
    ∷ (world, received (keyboard_key 65 30 true false))
    ∷ (world, received (mouse_button "left" true))
    ∷ (world, end_of_stream)
    ∷ []

cut_off_left : (run (start before "10.0.0.2:1") cut_off).1 ≡ true
unfolding run start
cut_off_left = refl

run-IsReleased_example : IsReleased (run (start before "10.0.0.2:1") cut_off).0
run-IsReleased_example = run-IsReleased before "10.0.0.2:1" cut_off cut_off_left

abbrev app : App
app = record {
  controller_generation = 0;
  controller_should_run = false;
  controller_tx = none;
  sessions = [];
  slots = [];
  accept_incoming = true;
  auth_token = none;
  spawned = [];
  role = "";
  connected = false;
  peer_addr = none;
  peer_name = none;
  last_event = idle;
}

trims : trim "  pass word\n" ≡ "pass word"
unfolding trim
trims = refl

hello_authorized-set_auth_token_example :
    (hello_authorized
        (set_auth_token (some "secret ") app).auth_token
        (set_auth_token (some " secret") app).auth_token
      ≡ true)
    ↔ ((trim "secret " ≡ "") ⊎ (trim "secret " ≡ trim " secret"))
hello_authorized-set_auth_token_example =
    hello_authorized-set_auth_token "secret " " secret" app app

-- A name that is connected twice, one that is blank, and one that is disconnected again.
abbrev clicks : List Command
clicks =
    connect "left" "10.0.0.2" "7000"
    ∷ connect "right" "10.0.0.3" "7000"
    ∷ connect "left" "10.0.0.4" "7000"
    ∷ connect " " "10.0.0.5" "7000"
    ∷ disconnect " right"
    ∷ []

obey_all-IsServed_example : IsServed (obey_all clicks app)
obey_all-IsServed_example = obey_all-IsServed clicks app (no_sessions-IsServed app refl refl)
