-- ===== src/Session/Receiver.antt =====
-- The receiving side of a session, `handle_receiver_stream` of
-- apps/tailkvm-ui/src-tauri/src/session/receiver.rs: its state, and what one turn of its loop sees.
pub mod Report
pub mod Input
pub mod Turn
pub mod Gate
pub mod Pressed
pub mod Views
pub mod Release
use Prim.Native.String.{String}
use tail_kvm.Base.{
  ℕ, ◌+◌, ◌-◌, ◌*◌, ◌≡◌, Bool, true, false, ◌&&◌, Option, none, some, List, [], ◌∷◌, ◌++◌, leb,
  ◌==◌, if◌then◌else◌,
}
use tail_kvm.Base.Int.{ℤ}
use tail_kvm.Net.Protocol.{WireMessage}
use tail_kvm.Session.Held.{Key}

-- Nanoseconds.
abbrev pub Instant : Type 0
Instant = ℕ

-- The calls that inject input on this machine.
pub data Injection : Type 0 where
  move_to : (x y : ℤ) → Injection
  move_by : (dx dy : ℤ) → Injection
  button : (name : String) (down : Bool) → Injection
  wheel : (delta : ℤ) (horizontal : Bool) → Injection
  text : String → Injection
  key : (vk scan_code : ℕ) (down extended : Bool) → Injection

-- The axes on which two keyboard layouts can differ.
pub data Difference : Type 0 where
  input_locale keyboard_type : Difference

-- The texts of `last_event`, each by its format string and arguments.
pub data Note : Type 0 where
  accepted_connection outbound_failed emergency_reset failsafe heartbeat_stale replaced : Note
  resent_screen_info : (width height : ℤ) → Note
  hello_from : (name version : String) (compatible : Bool) → Note
  not_accepting token_mismatch : (name : String) → Note
  ack_failed layout_failed screen_info_failed before_handshake : Note
  layout_match layout_mismatch : (peer_label : String) → Note
  position_applied : (x y : ℤ) (count : ℕ) → Note
  applied failed position_failed_after ignored : WireMessage → Note
  decode_dib_failed heartbeat_ack_failed decode_error closed read_error : Note
  heartbeat_received : (seq : ℕ) → Note
  peer_disconnected : (reason : String) → Note
  released : (keys buttons : ℕ) → Note

-- The fields of `TcpSessionSnapshot` that the receiver writes.
pub record Snapshot : Type 0 where
  pub role : String
  pub connected : Bool
  pub peer_addr : Option String
  pub peer_name : Option String
  pub heartbeat_seq : ℕ
  pub last_heartbeat_ms : Option ℕ
  pub local_keyboard_layout : Option String
  pub peer_keyboard_layout : Option String
  pub keyboard_layout_warning : Option (List Difference)
  pub last_event : Note

-- What the session does to the world, in order. A write or an injection stands here when it is
-- attempted. `mark_text` and `mark_dib` are the calls of the clipboard loop guard.
pub data Effect : Type 0 where
  write : WireMessage → Effect
  inject : Injection → Effect
  mark_text set_text : String → Effect
  mark_dib set_dib : List ℕ → Effect
  clear_abort drop_sender : Effect

-- The local variables of the function, with the effects so far.
pub record Session : Type 0 where
  pub accepted : Bool
  pub held_keys : List Key
  pub held_buttons : List String
  pub last_inject_fail_notice : Option Instant
  pub last_setpos_echo : Option Instant
  pub setpos_count : ℕ
  pub last_heartbeat : Option Instant
  pub last_screen_size : Option (ℤ × ℤ)
  pub snapshot : Snapshot
  pub effects : List Effect

pub record KeyboardLayoutInfo : Type 0 where
  pub language_id : ℕ
  pub keyboard_type : ℤ
  pub is_jis_keyboard : Bool
  pub is_japanese_locale : Bool
  pub label : String

pub record RectI32 : Type 0 where
  pub left : ℤ
  pub top : ℤ
  pub right : ℤ
  pub bottom : ℤ
  pub width : ℤ
  pub height : ℤ

pub record MonitorTopology : Type 0 where
  pub virtual_screen : RectI32
  pub monitors : List RectI32

-- What one turn finds: the clock, the shared flags, and the answers of the Win32 calls and of the
-- socket: the cursor, the decoder and the topology answer `none` on an error, and an injection its error
-- text. `decode_base64` is the standard engine of the base64 package.
pub record World : Type 0 where
  pub now : Instant
  pub unix_ms : ℕ
  pub machine_name : String
  pub accepting : Bool
  pub required_token : Option String
  pub abort : Bool
  pub pause_pressed : Bool
  pub keyboard : KeyboardLayoutInfo
  pub topology : Option MonitorTopology
  pub cursor : Option (ℤ × ℤ)
  pub write_ok : WireMessage → Bool
  pub inject_error : Injection → Option String
  pub set_text_ok : String → Bool
  pub set_dib_ok : List ℕ → Bool
  pub decode_base64 : String → Option (List ℕ)

-- What `select!` answers with: a line (decoded, or not), the end of the stream, a read error, an
-- outbound message or the end of their channel, a tick, or the cancellation by a newer connection.
pub data Event : Type 0 where
  received : WireMessage → Event
  undecodable end_of_stream failed_read outbound_closed topology_tick failsafe_tick cancelled :
      Event
  outbound : WireMessage → Event

abbrev pub emit : Effect → Session → Session
emit e s = record s { effects = s.effects ++ (e ∷ []) }

-- `update_tcp_state`, for the writers that only replace `last_event`.
abbrev pub note : Note → Session → Session
note n s = record s { snapshot = record s.snapshot { last_event = n } }

-- The writers that also set the role and the connected flag.
abbrev pub note_active : Note → Session → Session
note_active n s = record s {
  snapshot = record s.snapshot { role = "receiver"; connected = true; last_event = n };
}

-- `last.is_none_or(|t| t.elapsed() >= wait)`, with `wait` in milliseconds.
abbrev pub is_due : Option Instant → ℕ → Instant → Bool
is_due none wait now = true
is_due (some t) wait now = leb (wait * 1000000) (now - t)

-- A write to the socket, and whether it succeeded.
abbrev pub send : World → WireMessage → Session → Session × Bool
send w m s = (emit (write m) s, w.write_ok m)

-- An injection, and its error if it failed.
abbrev pub perform : World → Injection → Session → Session × Option String
perform w i s = (emit (inject i) s, w.inject_error i)
