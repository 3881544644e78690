-- ===== src/Router.antt =====
-- The multi-screen router, apps/tailkvm-ui/src-tauri/src/router.rs: the state of `run_router`, and what
-- one turn of its loop finds.
pub mod Steps
pub mod LocalTurn
pub mod RemoteTurn
pub mod Run
pub mod Home
pub mod Safety
pub mod Watchdog
pub mod Push
pub mod Commands
pub mod Sizes
pub mod Built
mod Tests
use Prim.Native.String.{String}
use tail_kvm.Base.{ℕ, Bool, Option, none, some, List, [], ◌∷◌, ◌++◌, if◌then◌else◌}
use tail_kvm.Base.Int.{ℤ}
use tail_kvm.Base.Dict
use tail_kvm.Base.Dict.{string_eq}
use tail_kvm.Core.PushGate.{PushGate, Instant}
use tail_kvm.Net.Protocol.{WireMessage}
use tail_kvm.ScreenSpace.Guard.{SwitchGuard}
use tail_kvm.ScreenSpace.Clamp.{Monitor}
use tail_kvm.LayoutGraph.Space.{MultiScreenSpace, ScreenCursor}
use tail_kvm.Forwarding.{MouseHook, KeyboardHook}

-- A channel of a session, by its number.
abbrev pub Sender : Type 0
Sender = ℕ

pub record ScreenSession : Type 0 where
  pub should_run : Bool
  pub tx : Option Sender

abbrev pub Sessions : Type 0
Sessions = List (String × ScreenSession)

pub record PeerScreen : Type 0 where
  pub width : ℤ
  pub height : ℤ
  pub monitors : List Monitor

-- The plain numbers and the name of `RouterArgs`.
pub record RouterArgs : Type 0 where
  pub local_name : String
  pub lock_x : ℤ
  pub lock_y : ℤ
  pub interval_ms : ℕ
  pub edge_margin : ℤ
  pub edge_dwell_ms : ℕ
  pub dead_corner_px : ℤ

-- The texts of `last_event`, each by its format string and arguments.
pub data Note : Type 0 where
  armed failsafe screen_removed link_lost stopped : Note
  capture_stop_requested tray_paused emergency_reset : Note
  stop_requested reconfigured already_running keyboard_failsafe raw_input_unavailable : Note
  returned_at : (x y : ℤ) → Note
  moved_at : (screen : String) (x y : ℤ) → Note
  moved_to : (screen : String) → Note
  mouse_hook_running mouse_hook_started mouse_hook_failed mouse_hook_stopping : Note
  keyboard_hook_running keyboard_hook_started keyboard_hook_failed keyboard_hook_stopping : Note

-- Messages sent to a session, and positions given to the local pointer, in order.
pub data Effect : Type 0 where
  send : Sender → WireMessage → Effect
  set_cursor : (x y : ℤ) → Effect

-- What the router shares with the commands and with the other threads. `confined` is the point that the
-- system keeps the local pointer at, if any.
pub record Shared : Type 0 where
  pub router_running : Bool
  pub router_space : Option MultiScreenSpace
  pub router_local_name : Option String
  pub remote_active : Bool
  pub ime_anchor : Option (ℤ × ℤ)
  pub mouse_hook : MouseHook
  pub keyboard_hook : KeyboardHook
  pub confined : Option (ℤ × ℤ)
  pub last_event : Note
  pub effects : List Effect

-- The local variables of `run_router`. `active_slot` is the slot that both hooks send through.
pub record Router : Type 0 where
  pub shared : Shared
  pub active : String
  pub cursor : ScreenCursor
  pub switch_guard : SwitchGuard
  pub push_gate : PushGate
  pub link_down_since : Option Instant
  pub active_slot : Option Sender

-- What one turn finds. The clock and the sessions are given once for each time that the turn reads
-- them; `raw_deltas` is what the turn drains, if it drains.
pub record World : Type 0 where
  pub pause_pressed : Bool
  pub cursor_position : Option (ℤ × ℤ)
  pub raw_deltas : List (ℤ × ℤ)
  pub now : Instant
  pub now' : Instant
  pub sessions : Sessions
  pub sessions' : Sessions
  pub sessions'' : Sessions
  pub screen_sizes : List (String × PeerScreen)
  pub is_composing : Bool
  pub mouse_hook_ok : Bool
  pub keyboard_hook_ok : Bool
  pub confine_ok : Bool

abbrev pub note : Note → Shared → Shared
note n s = record s { last_event = n }

abbrev pub emit : Effect → Shared → Shared
emit e s = record s { effects = s.effects ++ (e ∷ []) }

abbrev pub session_tx : Option ScreenSession → Option Sender
session_tx none = none
session_tx (some session) = session.tx

unfoldable pub screen_sender : Sessions → String → Option Sender
screen_sender sessions name = session_tx (Dict.lookup name sessions)

abbrev monitors_or_default : Option PeerScreen → List Monitor
monitors_or_default none = []
monitors_or_default (some peer) = peer.monitors

unfoldable pub peer_monitors_for : List (String × PeerScreen) → String → List Monitor
peer_monitors_for screen_sizes name = monitors_or_default (Dict.lookup name screen_sizes)
