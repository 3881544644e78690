-- ===== src/Forwarding.antt =====
-- Forwarding of hooked input, apps/tailkvm-ui/src-tauri/src/forwarding.rs: what starting and stopping the
-- low-level hooks does to the flags and slots that the engines share.
pub mod Health
pub mod Log
pub mod Anchor
pub mod Keyboard
pub mod KeyboardTurn
pub mod KeyboardKeys
pub mod KeyboardKeep
pub mod KeyboardRelease
mod Tests
pub mod Mouse
pub mod MouseRelease
use tail_kvm.Base.{
  ℕ, ◌+◌, ◌-◌, ◌*◌, ◌%◌, ◌^◌, Bool, true, false, Option, none, some, leb, if◌then◌else◌,
}

-- `mouse_hook_running`, and whether the slot `mouse_hook` holds a hook.
pub record MouseHook : Type 0 where
  pub running : Bool
  pub installed : Bool

-- The same for the keyboard, with `KEYBOARD_HOOK_GENERATION`.
pub record KeyboardHook : Type 0 where
  pub running : Bool
  pub installed : Bool
  pub generation : ℕ

-- How a start ends: the first two are `Ok`.
pub data Started : Type 0 where
  already_running started start_failed : Started

-- `install_ok` says whether the system installs the hook.
unfoldable pub start_mouse_hook_forwarding : Bool → MouseHook → MouseHook × Started
start_mouse_hook_forwarding install_ok h =
    if h.running
    then (h, already_running)
    else if install_ok
    then (record { running = true; installed = true }, started)
    else (record h { running = false }, start_failed)

unfoldable pub stop_mouse_hook_forwarding : MouseHook → MouseHook
stop_mouse_hook_forwarding h = record { running = false; installed = false }

-- A start that is not refused claims the next generation, also where the hook then fails.
unfoldable pub start_keyboard_hook_forwarding : Bool → KeyboardHook → KeyboardHook × Started
start_keyboard_hook_forwarding install_ok h =
    let claimed = (h.generation + 1) % 2 ^ 64 in
    if h.running
    then (h, already_running)
    else if install_ok
    then (record { running = true; installed = true; generation = claimed }, started)
    else (record h { running = false; generation = claimed }, start_failed)

unfoldable pub stop_keyboard_hook_forwarding : KeyboardHook → KeyboardHook
stop_keyboard_hook_forwarding h = record h { running = false; installed = false }

-- Where hooked input is sent: to one session, or to the one that the router has bound. The flag of a sender
-- says whether the other end still receives.
pub data SenderTarget : Type 0 where
  fixed : (open_end : Bool) → SenderTarget
  active : (slot : Option Bool) → SenderTarget

-- `send`: whether it answers `Ok`. An unbound slot drops the message without an error.
unfoldable pub send_ok : SenderTarget → Bool
send_ok (fixed open_end) = open_end
send_ok (active none) = true
send_ok (active (some open_end)) = open_end

unfoldable pub active_target_present : SenderTarget → Bool
active_target_present (fixed _) = true
active_target_present (active none) = false
active_target_present (active (some _)) = true

-- Nanoseconds.
abbrev pub Instant : Type 0
Instant = ℕ

-- Milliseconds that a target may be absent.
abbrev pub stale_active_target_stop : ℕ
stale_active_target_stop = 3000

-- `since.elapsed() >= wait`, with `wait` in milliseconds.
abbrev pub has_elapsed : Instant → ℕ → Instant → Bool
has_elapsed since wait now = leb (wait * 1000000) (now - since)

-- `active_absent_since` once the target has been looked at.
unfoldable pub watch_target : Bool → Instant → Option Instant → Option Instant
watch_target true now since = none
watch_target false now none = some now
watch_target false now (some t) = some t

abbrev pub is_stale : Option Instant → Instant → Bool
is_stale none now = false
is_stale (some t) now = has_elapsed t stale_active_target_stop now
