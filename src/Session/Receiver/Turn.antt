-- ===== src/Session/Receiver/Turn.antt =====
-- The loop of `handle_receiver_stream`, turn by turn, its start and its end. A turn answers with the
-- session and whether the loop goes on.
use Prim.Native.String.{String}
use package.text.Mathlib.Text.{◌==◌ as str_eq}
use tail_kvm.Base.{
  ℕ, Bool, true, false, not, ◌&&◌, ◌||◌, Option, none, some, List, [], ◌∷◌, ◌++◌, map, length, ltb,
  if◌then◌else◌,
}
use tail_kvm.Base.Int.{ℤ}
use tail_kvm.Base.I32.{leb_ℤ}
use tail_kvm.Net.Protocol.{
  WireMessage, hello, hello_ack, heartbeat, heartbeat_ack, mouse_set_position, mouse_move,
  mouse_button, mouse_wheel, keyboard_text, keyboard_key, keyboard_layout, clipboard_text,
  clipboard_image, disconnect, protocol_version, protocol_compatible,
}
use tail_kvm.Session.Held.{Key, track_key_press, track_button_press}
use tail_kvm.Session.Receiver.{
  move_by, button, wheel, text, key, Note, accepted_connection, outbound_failed, emergency_reset,
  failsafe, heartbeat_stale, replaced, resent_screen_info, hello_from, not_accepting,
  token_mismatch, ack_failed, layout_failed, screen_info_failed, before_handshake, ignored,
  heartbeat_ack_failed, decode_error, closed, read_error, heartbeat_received, peer_disconnected,
  released, Snapshot, Effect, write, inject, clear_abort, drop_sender, Session, World,
  MonitorTopology, Event, received, undecodable, end_of_stream, failed_read, outbound_closed,
  topology_tick, failsafe_tick, cancelled, outbound, emit, note, is_due, send,
}
use tail_kvm.Session.Receiver.Report.{
  hello_authorized, local_screen_info, send_local_keyboard_layout, apply_peer_keyboard_layout,
}
use tail_kvm.Session.Receiver.Input.{
  apply_input, apply_pointer, apply_set_position, apply_clipboard_text, apply_clipboard_image,
}

-- The session at the start of the function, after the state update and the stores before the loop.
unfoldable pub start : Snapshot → String → Session
start before peer_addr = record {
  accepted = false;
  held_keys = [];
  held_buttons = [];
  last_inject_fail_notice = none;
  last_setpos_echo = none;
  setpos_count = 0;
  last_heartbeat = none;
  last_screen_size = none;
  snapshot = record before {
    role = "receiver";
    connected = true;
    peer_addr = some peer_addr;
    peer_name = none;
    last_event = accepted_connection;
  };
  effects = clear_abort ∷ [];
}

-- After an accepted Hello: the keyboard layout, then the screens; a failed write is only noted.
abbrev pub announce_layout : World → Session → Session
announce_layout w s =
    let (s', ok) = send_local_keyboard_layout w s in if ok then s' else note layout_failed s'

abbrev pub screen_announced : World → Session → Option MonitorTopology → Session
screen_announced w s none = s
screen_announced w s (some topology) =
    let (s', ok) = send w (local_screen_info w.machine_name topology) s in
    if ok then s' else note screen_info_failed s'

abbrev pub announce_screen : World → Session → Session
announce_screen w s = screen_announced w s w.topology

-- The reported event and the message of the answer.
abbrev pub hello_reply : World → Bool → String → String → Bool → Note × String
hello_reply w true name version compatible = (hello_from name version compatible, "accepted")
hello_reply w false name version compatible =
    if not w.accepting
    then (not_accepting name, "receiver is not accepting connections")
    else (token_mismatch name, "pairing token mismatch")

-- What follows the write of the HelloAck.
unfoldable pub after_ack : World → Bool → Session → Bool → Session × Bool
unfolding send_local_keyboard_layout local_screen_info
after_ack w accepted s false = (note ack_failed s, false)
after_ack w false s true = (s, false)
after_ack w true s true = (announce_screen w (announce_layout w s), true)

-- The session once the Hello has been judged, before the answer is written.
unfoldable pub judged : World → Session → Bool → String → Note → Session
judged w s accepted name n = record s {
  last_heartbeat = some w.now;
  accepted = accepted;
  snapshot = record s.snapshot { peer_name = some name; last_event = n };
}

unfoldable pub handle_hello : World → Session → String → String → Option String → ℕ → Session × Bool
unfolding hello_authorized protocol_compatible judged after_ack
handle_hello w s name version token protocol =
    let accepted : Bool = w.accepting && hello_authorized w.required_token token in
    let (reported, message) = hello_reply w accepted name version (protocol_compatible protocol) in
    let ack : WireMessage = hello_ack w.machine_name accepted message protocol_version in
    after_ack w accepted (emit (write ack) (judged w s accepted name reported)) (w.write_ok ack)

unfoldable pub handle_heartbeat : World → Session → ℕ → Session × Bool
handle_heartbeat w s seq =
    let beat : Session = record s {
      last_heartbeat = some w.now;
      snapshot = record s.snapshot {
        role = "receiver";
        connected = true;
        heartbeat_seq = seq;
        last_heartbeat_ms = some w.unix_ms;
        last_event = heartbeat_received seq;
      };
    } in
    let (s', ok) = send w (heartbeat_ack seq w.unix_ms) beat in
    if ok then (s', true) else (note heartbeat_ack_failed s', false)

-- The arms that are reached once a Hello has been accepted.
unfoldable pub handle_accepted : World → Session → WireMessage → Session × Bool
unfolding apply_input apply_pointer apply_set_position apply_clipboard_text apply_clipboard_image
    apply_peer_keyboard_layout track_key_press track_button_press handle_heartbeat
handle_accepted w s (keyboard_layout language_id kind _ _ label) =
    (apply_peer_keyboard_layout w language_id kind label s, true)
handle_accepted w s (mouse_set_position x y) = (apply_set_position w x y s, true)
handle_accepted w s (clipboard_text t) = (apply_clipboard_text w t s, true)
handle_accepted w s (clipboard_image dib) = (apply_clipboard_image w dib s, true)
handle_accepted w s (keyboard_text t) =
    (apply_input w (keyboard_text t) "keyboard_text" (text t) s, true)
handle_accepted w s (keyboard_key vk scan_code down extended) =
    let s' = record s { held_keys = track_key_press s.held_keys vk scan_code extended down } in
    (
      apply_input w (keyboard_key vk scan_code down extended) "keyboard_key"
          (key vk scan_code down extended) s',
      true,
    )
handle_accepted w s (mouse_wheel delta horizontal) =
    (apply_pointer w (mouse_wheel delta horizontal) "mouse_wheel" (wheel delta horizontal) s, true)
handle_accepted w s (mouse_button name down) =
    let s' = record s { held_buttons = track_button_press s.held_buttons name down } in
    (apply_pointer w (mouse_button name down) "mouse_button" (button name down) s', true)
handle_accepted w s (mouse_move dx dy) =
    (apply_pointer w (mouse_move dx dy) "mouse_move" (move_by dx dy) s, true)
handle_accepted w s (heartbeat seq _) = handle_heartbeat w s seq
handle_accepted w s (disconnect reason) = (note (peer_disconnected reason) s, false)
handle_accepted w s other = (note (ignored other) s, true)

-- `match decode_line(&line)`: a Hello always; anything else only after an accepted one.
unfoldable pub handle_message : World → Session → WireMessage → Session × Bool
unfolding handle_hello handle_accepted
handle_message w s (hello name version token protocol) =
    handle_hello w s name version token protocol
handle_message w s other =
    if s.accepted then handle_accepted w s other else (note before_handshake s, true)

abbrev same_size : Option (ℤ × ℤ) → ℤ × ℤ → Bool
same_size none size = true
same_size (some (a, b)) (c, d) = (leb_ℤ a c && leb_ℤ c a) && (leb_ℤ b d && leb_ℤ d b)

-- `if last_screen_size.is_some() && last_screen_size != Some(size)`, with `same` its negation.
unfoldable pub resent : World → Session → Bool → WireMessage → ℤ × ℤ → Session
resent w s true m size = s
resent w s false m size =
    let s' = emit (write m) s in
    if w.write_ok m then note (resent_screen_info size.0 size.1) s' else s'

-- A changed size of the virtual screen is sent again; the first one is only remembered.
abbrev pub topology_seen : World → Session → Option MonitorTopology → Session
topology_seen w s none = s
topology_seen w s (some topology) =
    let size : ℤ × ℤ = (topology.virtual_screen.width, topology.virtual_screen.height) in
    record (resent w s (same_size s.last_screen_size size)
      (local_screen_info w.machine_name topology) size) { last_screen_size = some size }

unfoldable pub check_topology : World → Session → Session
unfolding local_screen_info resent
check_topology w s = topology_seen w s w.topology

abbrev heartbeat_stale_ms : ℕ
heartbeat_stale_ms = 8000

-- `last_heartbeat.is_some_and(|t| t.elapsed() >= HEARTBEAT_STALE)`
abbrev pub is_stale : Option ℕ → ℕ → Bool
is_stale none now = false
is_stale (some t) now = is_due (some t) heartbeat_stale_ms now

-- The emergency reset, the physical Ctrl+Alt+Pause, the silent controller.
unfoldable pub check_failsafe : World → Session → Session × Bool
check_failsafe w s =
    let s' = emit clear_abort s in
    if w.abort
    then (note emergency_reset (send w (disconnect "receiver emergency reset") s').0, false)
    else if w.pause_pressed
    then (note failsafe (send w (disconnect "receiver failsafe (Ctrl+Alt+Pause)") s').0, false)
    else if is_stale s.last_heartbeat w.now
    then (note heartbeat_stale s', false)
    else (s', true)

-- One turn of the loop.
unfoldable pub turn : World → Session → Event → Session × Bool
unfolding handle_message check_topology check_failsafe
turn w s (received m) = handle_message w s m
turn w s undecodable = (note decode_error s, true)
turn w s end_of_stream = (note closed s, false)
turn w s failed_read = (note read_error s, false)
turn w s (outbound m) =
    let (s', ok) = send w m s in if ok then (s', true) else (note outbound_failed s', false)
turn w s outbound_closed = (s, false)
turn w s topology_tick = (check_topology w s, true)
turn w s failsafe_tick = check_failsafe w s
turn w s cancelled = (note replaced s, false)

abbrev pub release_key : Key → Effect
release_key (vk, scan_code, extended) = inject (key vk scan_code false extended)

abbrev pub release_button : String → Effect
release_button name = inject (button name false)

-- The state update at the very end.
abbrev report_end : ℕ → ℕ → Snapshot → Bool → Snapshot
report_end keys buttons snapshot is_receiver =
    let s' = if is_receiver then record snapshot { connected = false } else snapshot in
    if ltb 0 keys || ltb 0 buttons then record s' { last_event = released keys buttons } else s'

-- What follows the loop: the sender is dropped, and whatever is still held is released.
unfoldable pub finish : Session → Session
finish s = record s {
  held_keys = [];
  held_buttons = [];
  snapshot =
      report_end (length s.held_keys) (length s.held_buttons) s.snapshot
        (str_eq s.snapshot.role "receiver");
  effects =
      s.effects
      ++ (drop_sender ∷ (map release_key s.held_keys ++ map release_button s.held_buttons));
}

-- The whole function on a sequence of turns: it ends where a turn breaks the loop, or with the last
-- event, the task then being dropped or still waiting. The flag says whether the loop was left.
unfoldable pub run : Session → List (World × Event) → Session × Bool
unfolding turn finish
run s [] = (s, false)
run s ((w, e) ∷ es) =
    let (s', go_on) = turn w s e in
    let rest = run s' es in if go_on then rest else (finish s', true)
