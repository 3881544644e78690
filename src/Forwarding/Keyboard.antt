-- ===== src/Forwarding/Keyboard.antt =====
-- The keyboard forwarding thread that `start_keyboard_hook_forwarding` of
-- apps/tailkvm-ui/src-tauri/src/forwarding.rs spawns: its state, and what it does with a key.
use Prim.Native.String.{String}
use tail_kvm.Base.{
  ℕ, ◌+◌, ◌%◌, ◌^◌, Bool, true, false, not, Option, none, some, List, [], ◌∷◌, ◌++◌, map,
  if◌then◌else◌,
}
use tail_kvm.Base.Int.{ℤ}
use tail_kvm.Net.Protocol.{WireMessage, keyboard_text, keyboard_key}
use tail_kvm.KeyClass.{
  KeyRoute, physical, character, ime_local, Modifier, ctrl, alt, win, shift, modifier_kind,
  is_ime_toggle_key, classify_key,
}
use tail_kvm.Ime.Mode.{ImeModeState, off, armed, as_str, is_on, on_toggle, on_entry_failure}
use tail_kvm.Session.Held.{Key, key_eq, contains, track_key_press}
use tail_kvm.Forwarding.{
  MouseHook, KeyboardHook, SenderTarget, send_ok, Instant, stop_mouse_hook_forwarding,
}
use tail_kvm.Forwarding.Health.{Health, Probe}
use tail_kvm.Forwarding.Log.{release_key}
use tail_kvm.Forwarding.Anchor.{ImeSettings, Desktop, resolve_ime_anchor}

pub data KeyboardHookEvent : Type 0 where
  key : (vk scan_code : ℕ) (down extended : Bool) → KeyboardHookEvent
  failsafe : KeyboardHookEvent

-- `recv_timeout`
pub data Received : Type 0 where
  event : KeyboardHookEvent → Received
  timeout disconnected : Received

-- The texts of `last_event`.
pub data Note : Type 0 where
  target_vanished reinstalled lost_hook marker_degraded channel_closed failsafe_received started :
      Note
  composition_on : (anchor : ℤ × ℤ) (focus_acquired state_saved : Bool) → Note
  capture_failed composition_off : Note
  stopped : (events : ℕ) → Note
  forwarded : (count : ℕ) (message : WireMessage) → Note

-- What a turn finds. The clock is given once for each time that a turn reads it; `is_composing` is asked
-- at the start of the turn and again for a key.
pub record World : Type 0 where
  pub target : SenderTarget
  pub target' : SenderTarget
  pub now : Instant
  pub now' : Instant
  pub now_anchor : Instant
  pub now_checked : Instant
  pub now_entered : Instant
  pub commits : List String
  pub is_composing : Bool
  pub is_composing' : Bool
  pub resolve_characters : Bool
  pub settings : ImeSettings
  pub ime_anchor : Option (ℤ × ℤ)
  pub desktop : Desktop
  pub capture_ok : Bool
  pub focus_acquired : Bool
  pub state_saved : Bool
  pub caps_toggled : Bool
  pub resolve_key_text : (vk scan_code : ℕ) (shift caps : Bool) → Option String
  pub probe : Probe
  pub received : Received

-- The local variables, what the thread shares with the hook and with the other threads, the fields of the
-- snapshot that it writes, and the messages that it has tried to send, in order.
pub record Keyboard : Type 0 where
  pub hook : KeyboardHook
  pub my_gen : ℕ
  pub passthrough : Bool
  pub capture_running : Bool
  pub mouse_hook : MouseHook
  pub remote_active : Bool
  pub event_count : ℕ
  pub pressed_keys : List Key
  pub ctrl_down : Bool
  pub alt_down : Bool
  pub win_down : Bool
  pub shift_down : Bool
  pub health : Health
  pub ime_capture : Bool
  pub ime_toggle_held : Bool
  pub ime_mode : ImeModeState
  pub ime_window_anchor : ℤ × ℤ
  pub ime_anchor_checked : Instant
  pub active_absent_since : Option Instant
  pub role : String
  pub connected : Bool
  pub shown_mode : String
  pub last_event : Note
  pub sends : List WireMessage

-- How a turn ends: the loop goes on, is left, or the thread panics.
pub data Outcome : Type 0 where
  go_on leave panicked : Keyboard → Outcome

abbrev pub note : Note → Keyboard → Keyboard
note n k = record k { last_event = n }

abbrev pub clear_flag : Keyboard → Keyboard
clear_flag k = record k { hook = record k.hook { running = false } }

abbrev pub push : WireMessage → Keyboard → Keyboard
push m k = record k { sends = k.sends ++ (m ∷ []) }

-- Every key that is still held on the peer is released, and none is recorded any more.
unfoldable pub release_pressed_keys : Keyboard → Keyboard
release_pressed_keys k = record k {
  pressed_keys = [];
  sends = k.sends ++ map release_key k.pressed_keys;
}

abbrev pub with_modifier : Keyboard → Bool → Option Modifier → Keyboard
with_modifier k down none = k
with_modifier k down (some ctrl) = record k { ctrl_down = down }
with_modifier k down (some alt) = record k { alt_down = down }
with_modifier k down (some win) = record k { win_down = down }
with_modifier k down (some shift) = record k { shift_down = down }

unfoldable pub track_modifier : Keyboard → ℕ → Bool → Keyboard
unfolding modifier_kind
track_modifier k vk down = with_modifier k down (modifier_kind vk)

-- What follows the choice of the message: a failed send leaves the loop.
abbrev pub forward : World → Keyboard → WireMessage → Outcome
forward w k m =
    let sent : Keyboard = push m k in
    let count = (k.event_count + 1) % 2 ^ 64 in
    if send_ok w.target'
    then go_on (record sent {
      event_count = count;
      role = "controller";
      connected = true;
      last_event = forwarded count m;
    })
    else leave (clear_flag (record sent { connected = false; last_event = channel_closed }))

-- The physical key is tracked and forwarded.
unfoldable pub send_physical : World → Keyboard → ℕ → ℕ → Bool → Bool → Outcome
unfolding track_key_press send_ok
send_physical w k vk scan_code down extended =
    forward w
      (record k { pressed_keys = track_key_press k.pressed_keys vk scan_code extended down })
      (keyboard_key vk scan_code down extended)

unfoldable pub send_text : World → Keyboard → String → Outcome
unfolding send_ok
send_text w k text = forward w k (keyboard_text text)

-- Entry into the composition mode, once its anchor is known.
abbrev pub entered : World → Keyboard → Option (ℤ × ℤ) → Outcome
entered w k none = panicked k
entered w k (some anchor) =
    if w.capture_ok
    then (let on : Keyboard = release_pressed_keys (record k {
      ime_capture = true;
      ime_mode = armed;
      ime_window_anchor = anchor;
      ime_anchor_checked = w.now_entered;
      passthrough = true;
    }) in
        go_on (record on {
          shown_mode = as_str armed;
          last_event = composition_on anchor w.focus_acquired w.state_saved;
        }))
    else go_on (record k {
      ime_mode = on_entry_failure k.ime_mode;
      shown_mode = as_str (on_entry_failure k.ime_mode);
      last_event = capture_failed;
    })

abbrev pub is_armed : ImeModeState → Bool
is_armed armed = true
is_armed _ = false

-- The first down of a toggle key.
unfoldable pub toggle : World → Keyboard → Outcome
unfolding on_toggle on_entry_failure as_str resolve_ime_anchor release_pressed_keys
toggle w k =
    if is_armed (on_toggle k.ime_mode)
    then entered w k (resolve_ime_anchor w.settings w.ime_anchor w.desktop)
    else go_on (record k {
      ime_capture = false;
      ime_mode = off;
      passthrough = false;
      shown_mode = as_str off;
      last_event = composition_off;
    })

-- A key that stays local: only the toggle keys do anything, once per press.
unfoldable pub ime_key : World → Keyboard → ℕ → Bool → Outcome
unfolding is_ime_toggle_key toggle
ime_key w k vk down =
    if not (is_ime_toggle_key vk)
    then go_on k
    else if down
    then (if k.ime_toggle_held then go_on k else toggle w (record k { ime_toggle_held = true }))
    else go_on (record k { ime_toggle_held = false })

-- While the composition mode is on.
unfoldable pub composing_key : World → Keyboard → KeyRoute → ℕ → ℕ → Bool → Bool → Outcome
unfolding send_physical
composing_key w k physical vk scan_code down extended =
    if w.is_composing' then go_on k else send_physical w k vk scan_code down extended
composing_key w k _ vk scan_code down extended = go_on k

abbrev pub resolved : World → Keyboard → ℕ → ℕ → Bool → Bool → Option String → Outcome
resolved w k vk scan_code down extended (some text) = send_text w k text
resolved w k vk scan_code down extended none = send_physical w k vk scan_code down extended

unfoldable pub character_key : World → Keyboard → ℕ → ℕ → Bool → Bool → Outcome
unfolding send_physical send_text contains
character_key w k vk scan_code down extended =
    if down
    then resolved w k vk scan_code down extended
        (w.resolve_key_text vk scan_code k.shift_down w.caps_toggled)
    else if contains (vk, scan_code, extended) k.pressed_keys
    then send_physical w k vk scan_code down extended
    else go_on k

abbrev pub routed : World → Keyboard → ℕ → ℕ → Bool → Bool → KeyRoute → Outcome
routed w k vk scan_code down extended ime_local = ime_key w k vk down
routed w k vk scan_code down extended physical =
    if is_on k.ime_mode
    then composing_key w k physical vk scan_code down extended
    else send_physical w k vk scan_code down extended
routed w k vk scan_code down extended character =
    if is_on k.ime_mode
    then composing_key w k character vk scan_code down extended
    else character_key w k vk scan_code down extended

unfoldable pub handle_key : World → Keyboard → ℕ → ℕ → Bool → Bool → Outcome
unfolding track_modifier classify_key is_on ime_key composing_key character_key send_physical
handle_key w k vk scan_code down extended =
    let k' : Keyboard = track_modifier k vk down in
    if w.resolve_characters
    then routed w k' vk scan_code down extended
        (classify_key vk k'.ctrl_down k'.alt_down k'.win_down)
    else send_physical w k' vk scan_code down extended

-- The failsafe combination stops every capture.
unfoldable pub handle_failsafe : Keyboard → Outcome
unfolding stop_mouse_hook_forwarding
handle_failsafe k = leave (record k {
  hook = record k.hook { running = false };
  capture_running = false;
  mouse_hook = stop_mouse_hook_forwarding k.mouse_hook;
  remote_active = false;
  last_event = failsafe_received;
})
