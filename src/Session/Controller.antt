-- ===== src/Session/Controller.antt =====
-- The controlling side of a session, `run_controller_session` of
-- apps/tailkvm-ui/src-tauri/src/session/controller.rs: its state, and what one turn of its loop sees.
pub mod Turn
pub mod Beats
pub mod Watchdog
pub mod Commands
mod Tests
use Prim.Native.String.{String}
use tail_kvm.Base.{ℕ, ◌+◌, Bool, true, false, Option, List, [], ◌∷◌, ◌++◌}
use tail_kvm.Base.Int.{ℤ}
use tail_kvm.Net.Protocol.{WireMessage}
use tail_kvm.Session.Receiver.{Difference, KeyboardLayoutInfo}
use tail_kvm.Session.Relay.{Peer}

-- The texts of `last_event`, each by its format string and arguments.
pub data Note : Type 0 where
  tcp_connected : (addr : String) → Note
  hello_failed layout_failed command_closed command_failed heartbeat_failed unresponsive : Note
  hello_acked : (name message : String) (compatible : Bool) → Note
  layout_match layout_mismatch : (peer_label : String) → Note
  heartbeat_acked heartbeat_sent : (seq : ℕ) → Note
  screen_reported : (name : String) (width height : ℤ) → Note
  text_applied : (text : String) (relayed : ℕ) → Note
  image_applied : (bytes relayed : ℕ) → Note
  return_edge remote_position : (x y : ℤ) → Note
  injection_failed : (kind detail : String) → Note
  ignored command_sent : WireMessage → Note
  decode_error closed read_error : Note
  connect_failed : (addr : String) → Note

-- The fields of `TcpSessionSnapshot` that the controller writes.
pub record Snapshot : Type 0 where
  pub role : String
  pub connected : Bool
  pub peer_addr : Option String
  pub peer_name : Option String
  pub heartbeat_seq : ℕ
  pub last_heartbeat_ms : Option ℕ
  pub local_keyboard_layout : Option String
  pub peer_keyboard_layout : Option String
  pub keyboard_layout_warning : Option (List Difference)
  pub last_event : Note

pub record PeerScreen : Type 0 where
  pub width : ℤ
  pub height : ℤ
  pub monitors : List (ℤ × ℤ × ℤ × ℤ)

pub record RemoteControlState : Type 0 where
  pub active : Bool
  pub switch_edge : String
  pub remote_width : ℤ
  pub remote_height : ℤ
  pub edge_margin : ℤ
  pub seamless : Bool

-- What the session does to the world, in order. `command` is a write of a queued message, `write` one
-- of the session's own messages; both stand here when they are attempted.
pub data Effect : Type 0 where
  write command : WireMessage → Effect
  mark_text set_text : String → Effect
  mark_dib set_dib : List ℕ → Effect
  relay_text relay_image : String → List String → Effect
  record_screen : String → PeerScreen → Effect
  stop_capture deactivate_remote : Effect

-- The local variables of the function, with the shared snapshot and the effects so far.
pub record Session : Type 0 where
  pub heartbeat_seq : ℕ
  pub last_inbound : ℕ
  pub snapshot : Snapshot
  pub effects : List Effect

-- What one turn finds: the clock in nanoseconds, the shared state, and the answers of the socket.
pub record World : Type 0 where
  pub now : ℕ
  pub unix_ms : ℕ
  pub machine_name : String
  pub app_version : String
  pub auth_token : Option String
  pub keyboard : KeyboardLayoutInfo
  pub remote : RemoteControlState
  pub sessions : List Peer
  pub origin_name : String
  pub write_ok : WireMessage → Bool
  pub decode_base64 : String → Option (List ℕ)

-- What `select!` answers with: a line (decoded, or not), the end of the stream, a read error, the first
-- queued command with those that `try_recv` finds behind it, the end of the queue, or the 2 s tick.
pub data Event : Type 0 where
  received : WireMessage → Event
  undecodable end_of_stream failed_read commands_closed heartbeat_tick : Event
  commands : WireMessage → List WireMessage → Event

abbrev pub emit : Effect → Session → Session
emit e s = record s { effects = s.effects ++ (e ∷ []) }

abbrev pub note : Note → Session → Session
note n s = record s { snapshot = record s.snapshot { last_event = n } }

abbrev pub note_active : Note → Session → Session
note_active n s = record s {
  snapshot = record s.snapshot { role = "controller"; connected = true; last_event = n };
}
