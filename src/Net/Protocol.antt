-- ===== src/Net/Protocol.antt =====
-- The wire protocol, crates/tailkvm-net/src/protocol.rs: the messages and the version check.
use Prim.Native.String.{String}
use tail_kvm.Base.{ℕ, Bool, ◌||◌, Option, List, ◌==◌}
use tail_kvm.Base.Int.{ℤ}

abbrev pub protocol_version : ℕ
protocol_version = 1

unfoldable pub protocol_compatible : ℕ → Bool
protocol_compatible peer_version = peer_version == 0 || peer_version == protocol_version

-- Fields in the order of the source. A monitor of `screen_info` is `[left, top, right, bottom]`.
pub data WireMessage : Type 0 where
  hello :
      (machine_name app_version : String) (auth_token : Option String) (protocol : ℕ) → WireMessage
  hello_ack :
      (receiver_machine_name : String) (accepted : Bool) (message : String) (protocol : ℕ)
      → WireMessage
  heartbeat : (seq unix_ms : ℕ) → WireMessage
  heartbeat_ack : (seq unix_ms : ℕ) → WireMessage
  mouse_set_position : (x y : ℤ) → WireMessage
  mouse_position : (x y : ℤ) → WireMessage
  mouse_move : (dx dy : ℤ) → WireMessage
  mouse_button : (button : String) (down : Bool) → WireMessage
  mouse_wheel : (delta : ℤ) (horizontal : Bool) → WireMessage
  keyboard_text : (text : String) → WireMessage
  keyboard_key : (vk scan_code : ℕ) (down extended : Bool) → WireMessage
  keyboard_layout :
      (language_id : ℕ) (keyboard_type : ℤ) (is_jis_keyboard is_japanese_locale : Bool)
      (label : String)
      → WireMessage
  clipboard_text : (text : String) → WireMessage
  clipboard_image : (dib_base64 : String) → WireMessage
  screen_info :
      (name : String) (virtual_width virtual_height : ℤ) (monitors : List (ℤ × ℤ × ℤ × ℤ))
      → WireMessage
  input_injection_failed : (kind detail : String) → WireMessage
  disconnect : (reason : String) → WireMessage
