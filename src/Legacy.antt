-- ===== src/Legacy.antt =====
-- The state of the older capture loop, which forwards relative moves
-- (apps/tailkvm-ui/src-tauri/src/legacy_capture.rs).
use Prim.Native.String.{String}
use tail_kvm.Base.{ℕ, Bool, Option, List, [], ◌∷◌, ◌++◌}
use tail_kvm.Base.Int.{ℤ}
use tail_kvm.Net.Protocol.{WireMessage}
use tail_kvm.Core.Geometry.{Point, Rect}
use tail_kvm.Forwarding.{MouseHook, KeyboardHook}
pub mod Turn
pub mod Moves
mod Tests

-- What the spawned task captures of the arguments of `start_mouse_capture`, after their clamps; `has_raw`
-- tells whether Raw Input is asked for and available.
pub record CaptureArgs : Type 0 where
  pub remote_mode : Bool
  pub has_raw : Bool
  pub switch_edge : String
  pub edge_margin : ℤ
  pub remote_width : ℤ
  pub remote_height : ℤ
  pub max_delta : ℤ
  pub virtual_screen : Rect
  pub lock_x : ℤ
  pub lock_y : ℤ

-- The texts of `last_event`, each by its format string and arguments.
pub data Note : Type 0 where
  armed mirror_started failsafe read_error enter_failed channel_closed : Note
  mouse_hook_running mouse_hook_started mouse_hook_failed mouse_hook_stopping : Note
  keyboard_hook_running keyboard_hook_started keyboard_hook_failed : Note
  waiting entered warp_ignored : (x y : ℤ) → Note
  capturing : (sent skipped : ℕ) (raw_dx raw_dy dx dy : ℤ) → Note
  stopped : (sent skipped : ℕ) (return_x return_y : ℤ) → Note

-- Messages that the channel has taken, and positions given to the local pointer, in order.
pub data Effect : Type 0 where
  send : WireMessage → Effect
  set_cursor : (x y : ℤ) → Effect

pub record Shared : Type 0 where
  pub capture_running : Bool
  pub remote_control_active : Bool
  pub mouse_hook : MouseHook
  pub keyboard_hook : KeyboardHook
  pub role : String
  pub connected : Bool
  pub last_event : Note
  pub effects : List Effect

-- The local variables of the task.
pub record Capture : Type 0 where
  pub shared : Shared
  pub remote_active : Bool
  pub sent_count : ℕ
  pub skipped_count : ℕ
  pub ignored_warp_frames : ℕ
  pub last_mirror_pos : Option Point
  pub return_x : ℤ
  pub return_y : ℤ

-- What one turn finds. `running` is the flag, which other threads may clear; `raw_deltas` is what it drains, `send_ok` whether the channel is open.
pub record World : Type 0 where
  pub running : Bool
  pub pause_pressed : Bool
  pub cursor_position : Option Point
  pub raw_deltas : List (ℤ × ℤ)
  pub send_ok : Bool
  pub mouse_hook_ok : Bool
  pub keyboard_hook_ok : Bool

abbrev pub note : Note → Shared → Shared
note n s = record s { last_event = n }

abbrev pub emit : Effect → Shared → Shared
emit e s = record s { effects = s.effects ++ (e ∷ []) }
