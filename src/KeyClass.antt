-- ===== src/KeyClass.antt =====
-- Key routing, crates/tailkvm-win32/src/key_class.rs: whether a key goes to the peer as a physical key,
-- as a character, or stays local.
pub mod Routes
use tail_kvm.Base.{ℕ, Bool, true, false, ◌&&◌, ◌||◌, Option, none, some, leb, ◌==◌, if◌then◌else◌}

pub data KeyRoute : Type 0 where
  physical character ime_local : KeyRoute

pub data Modifier : Type 0 where
  ctrl alt win shift : Modifier

unfoldable pub modifier_kind : ℕ → Option Modifier
modifier_kind vk =
    if vk == 0x10 || vk == 0xA0 || vk == 0xA1
    then some shift
    else if vk == 0x11 || vk == 0xA2 || vk == 0xA3
    then some ctrl
    else if vk == 0x12 || vk == 0xA4 || vk == 0xA5
    then some alt
    else if vk == 0x5B || vk == 0x5C
    then some win
    else none

unfoldable pub is_ime_toggle_key : ℕ → Bool
is_ime_toggle_key vk = vk == 0x19 || vk == 0xF3 || vk == 0xF4

-- `(lo..=hi).contains(&vk)`
abbrev pub between : ℕ → ℕ → ℕ → Bool
between lo hi vk = leb lo vk && leb vk hi

unfoldable pub is_ime_key : ℕ → Bool
is_ime_key vk =
    (vk == 0x15
      || vk == 0x16
      || vk == 0x17
      || vk == 0x19
      || vk == 0x1C
      || vk == 0x1D
      || vk == 0x1E
      || vk == 0x1F)
    || between 0xF0 0xFF vk

unfoldable pub is_control_nav_or_function : ℕ → Bool
is_control_nav_or_function vk =
    vk == 0x08
    || vk == 0x09
    || vk == 0x0D
    || vk == 0x1B
    || vk == 0x20
    || vk == 0x13
    || vk == 0x14
    || between 0x2C 0x2E vk
    || between 0x21 0x28 vk
    || vk == 0x5D
    || vk == 0x90
    || vk == 0x91
    || between 0x70 0x87 vk

-- `Option::is_some`
abbrev pub is_some {ℓ} : {A : Type ℓ} → Option A → Bool
is_some none = false
is_some (some _) = true

unfoldable pub classify_key : ℕ → Bool → Bool → Bool → KeyRoute
classify_key vk ctrl_down alt_down win_down =
    if is_ime_key vk
    then ime_local
    else if is_some (modifier_kind vk)
    then physical
    else if ctrl_down || alt_down || win_down
    then physical
    else if is_control_nav_or_function vk
    then physical
    else character
