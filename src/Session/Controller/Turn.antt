-- ===== src/Session/Controller/Turn.antt =====
-- The start, the turns and the end of `run_controller_session`.
use Prim.Native.String.{String}
use package.text.Mathlib.Text.{◌==◌ as str_eq}
use tail_kvm.Base.{
  ℕ, ◌+◌, ◌-◌, ◌*◌, ◌%◌, ◌^◌, Bool, true, false, not, ◌&&◌, Option, none, some, List, [], ◌∷◌,
  length, leb, if◌then◌else◌,
}
use tail_kvm.Base.Int.{ℤ}
use tail_kvm.Core.Geometry.{is_remote_return_edge}
use tail_kvm.Net.Protocol.{
  WireMessage, hello, hello_ack, heartbeat, heartbeat_ack, mouse_set_position, mouse_position,
  mouse_move, keyboard_layout, clipboard_text, clipboard_image, screen_info, input_injection_failed,
  protocol_version, protocol_compatible,
}
use tail_kvm.Session.Coalesce.{push_all}
use tail_kvm.Session.Receiver.Report.{layout_message, mismatch_with}
use tail_kvm.Session.Receiver.Input.{decode_dib}
use tail_kvm.Session.Relay.{relay_message}
use tail_kvm.Session.Controller.{
  tcp_connected, hello_failed, layout_failed, command_closed, command_failed, heartbeat_failed,
  unresponsive, hello_acked, layout_match, layout_mismatch, heartbeat_acked, heartbeat_sent,
  screen_reported, text_applied, image_applied, return_edge, remote_position, injection_failed,
  ignored, command_sent, decode_error, closed, read_error, connect_failed, Snapshot,
  RemoteControlState, write, command, mark_text, set_text, mark_dib, set_dib, relay_text,
  relay_image, record_screen, stop_capture, deactivate_remote, Session, World, Event, received,
  undecodable, end_of_stream, failed_read, commands_closed, heartbeat_tick, commands, emit, note,
  note_active,
}

-- What precedes the loop, once the TCP connection is there: whether the loop is reached.
unfoldable pub open_session : World → Snapshot → String → Session × Bool
open_session w before addr =
    let connected : Session = record {
      heartbeat_seq = 0;
      last_inbound = w.now;
      snapshot = record before {
        role = "controller";
        connected = true;
        peer_addr = some addr;
        last_event = tcp_connected addr;
      };
      effects = [];
    } in
    let greeting : WireMessage = hello w.machine_name w.app_version w.auth_token protocol_version in
    let layout : WireMessage = layout_message w.keyboard in
    let greeted : Session = emit (write greeting) connected in
    let announced : Session = emit (write layout) greeted in
    if not (w.write_ok greeting)
    then (
      record greeted {
        snapshot = record greeted.snapshot { connected = false; last_event = hello_failed };
      },
      false,
    )
    else if w.write_ok layout
    then (announced, true)
    else (note layout_failed announced, true)

-- `is_remote_return_edge` of apps/tailkvm-ui/src-tauri/src/seamless.rs.
abbrev pub at_return_edge : RemoteControlState → ℤ → ℤ → Bool
at_return_edge r x y =
    is_remote_return_edge x y r.switch_edge r.edge_margin r.remote_width r.remote_height

abbrev pub handle_position : World → Session → ℤ → ℤ → Session
handle_position w s x y =
    if w.remote.active && (not w.remote.seamless && at_return_edge w.remote x y)
    then note_active (return_edge x y) (emit deactivate_remote (emit stop_capture s))
    else note_active (remote_position x y) s

abbrev pub apply_image : World → Session → String → Option (List ℕ) → Session
apply_image w s dib_base64 none = s
apply_image w s dib_base64 (some dib) =
    let relayed = relay_message w.sessions w.origin_name in
    note (image_applied (length dib) (length relayed))
      (emit (relay_image dib_base64 relayed) (emit (set_dib dib) (emit (mark_dib dib) s)))

-- The match on a decoded message.
unfoldable pub handle_message : World → Session → WireMessage → Session
unfolding protocol_compatible mismatch_with decode_dib relay_message is_remote_return_edge
handle_message w s (hello_ack name accepted message protocol) = record s {
  snapshot = record s.snapshot {
    peer_name = some name;
    connected = accepted;
    last_event = hello_acked name message (protocol_compatible protocol);
  };
}
handle_message w s (keyboard_layout language_id kind _ _ label) =
    let warning = mismatch_with w.keyboard language_id kind in
    record s {
      snapshot = record s.snapshot {
        local_keyboard_layout = some w.keyboard.label;
        peer_keyboard_layout = some label;
        keyboard_layout_warning = warning;
        last_event = elim warning [ none ↦ layout_match label | some _ ↦ layout_mismatch label ];
      };
    }
handle_message w s (heartbeat_ack seq _) = record s {
  snapshot = record s.snapshot {
    role = "controller";
    connected = true;
    heartbeat_seq = seq;
    last_heartbeat_ms = some w.unix_ms;
    last_event = heartbeat_acked seq;
  };
}
handle_message w s (screen_info name width height monitors) =
    note (screen_reported name width height)
      (emit (record_screen name (record { width = width; height = height; monitors = monitors })) s)
handle_message w s (clipboard_text text) =
    let relayed = relay_message w.sessions w.origin_name in
    note (text_applied text (length relayed))
      (emit (relay_text text relayed) (emit (set_text text) (emit (mark_text text) s)))
handle_message w s (clipboard_image dib_base64) =
    apply_image w s dib_base64 (decode_dib w.decode_base64 dib_base64)
handle_message w s (mouse_position x y) = handle_position w s x y
handle_message w s (input_injection_failed kind detail) = note (injection_failed kind detail) s
handle_message w s other = note (ignored other) s

-- The write loop over a batch: it stops at the first failed write.
unfoldable pub write_batch : World → Session → List WireMessage → Session × Bool
write_batch w s [] = (s, true)
write_batch w s (m ∷ ms) =
    let rest = write_batch w (emit (command m) s) ms in
    if w.write_ok m then rest else (note command_failed (emit (command m) s), false)

abbrev pub is_motion : WireMessage → Bool
is_motion (mouse_move dx dy) = true
is_motion (mouse_set_position x y) = true
is_motion _ = false

-- `batch.iter().rev().find(..)`: the last message that is no motion.
pub last_reported : Option WireMessage → List WireMessage → Option WireMessage
last_reported found [] = found
last_reported found (m ∷ ms) = last_reported (if is_motion m then found else some m) ms

abbrev pub report_batch : Session → Option WireMessage → Session
report_batch s none = s
report_batch s (some m) = note_active (command_sent m) s

unfoldable pub send_commands : World → Session → List WireMessage → Session × Bool
unfolding write_batch last_reported
send_commands w s batch =
    let (s', ok) = write_batch w s batch in
    if ok then (report_batch s' (last_reported none batch), true) else (s', false)

abbrev inbound_stale_ms : ℕ
inbound_stale_ms = 8000

-- `last_inbound.elapsed() >= INBOUND_STALE`
abbrev pub is_stale : ℕ → ℕ → Bool
is_stale last_inbound now = leb (inbound_stale_ms * 1000000) (now - last_inbound)

unfoldable pub tick : World → Session → Session × Bool
tick w s =
    let seq = (s.heartbeat_seq + 1) % 2 ^ 64 in
    let beat : WireMessage = heartbeat seq w.unix_ms in
    let s' : Session = emit (write beat) (record s { heartbeat_seq = seq }) in
    let sent : Session = record s' {
      snapshot = record s'.snapshot {
        role = "controller";
        connected = true;
        heartbeat_seq = seq;
        last_event = heartbeat_sent seq;
      };
    } in
    if is_stale s.last_inbound w.now
    then (
      record s { snapshot = record s.snapshot { connected = false; last_event = unresponsive } },
      false,
    )
    else if w.write_ok beat
    then (sent, true)
    else (note heartbeat_failed s', false)

-- One turn of the loop. Every line that arrives renews `last_inbound`.
unfoldable pub turn : World → Session → Event → Session × Bool
unfolding handle_message send_commands tick push_all
turn w s (received m) = (handle_message w (record s { last_inbound = w.now }) m, true)
turn w s undecodable = (note decode_error (record s { last_inbound = w.now }), true)
turn w s end_of_stream = (note closed s, false)
turn w s failed_read = (note read_error s, false)
turn w s (commands first queued) = send_commands w s (push_all (first ∷ []) queued)
turn w s commands_closed = (note command_closed s, false)
turn w s heartbeat_tick = tick w s

-- The state update at the very end.
unfoldable pub close_session : Session → Session
close_session s =
    if str_eq s.snapshot.role "controller"
    then record s { snapshot = record s.snapshot { connected = false } }
    else s

-- A failed TCP connection, which ends in the same update as the loop.
unfoldable pub connect_error : Session → String → Session
unfolding close_session
connect_error s addr = close_session (record s {
  snapshot = record s.snapshot {
    role = "controller";
    connected = false;
    peer_addr = some addr;
    last_event = connect_failed addr;
  };
})

-- The loop on a sequence of turns: it ends where a turn breaks it, or with the last event.
unfoldable pub run : Session → List (World × Event) → Session × Bool
unfolding turn close_session
run s [] = (s, false)
run s ((w, e) ∷ es) =
    let (s', go_on) = turn w s e in
    let rest = run s' es in if go_on then rest else (close_session s', true)
