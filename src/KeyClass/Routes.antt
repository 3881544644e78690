-- ===== src/KeyClass/Routes.antt =====
-- Which keys take which route.
use tail_kvm.Base.{ℕ, ◌≡◌, Bool, true, false, ◌||◌, none, some, arith, if◌then◌else◌}
use tail_kvm.KeyClass.{
  physical, character, ime_local, Modifier, modifier_kind, is_ime_toggle_key, is_ime_key,
  is_control_nav_or_function, between, classify_key,
}

-- The letters, digits and the two symbol blocks of a keyboard, which produce characters.
abbrev pub is_printable : ℕ → Bool
is_printable vk =
    between 0x30 0x39 vk || between 0x41 0x5A vk || between 0xBA 0xC0 vk || between 0xDB 0xDF vk

toggle_is_ime : (vk : ℕ) → is_ime_toggle_key vk ≡ true → is_ime_key vk ≡ true
unfolding is_ime_toggle_key is_ime_key
toggle_is_ime vk h = ground arith

printable_not_ime : (vk : ℕ) → is_printable vk ≡ true → is_ime_key vk ≡ false
unfolding is_ime_key
printable_not_ime vk h = ground arith

printable_not_modifier : (vk : ℕ) → is_printable vk ≡ true → modifier_kind vk ≡ none
unfolding modifier_kind
printable_not_modifier vk h = ground arith

printable_not_control : (vk : ℕ) → is_printable vk ≡ true → is_control_nav_or_function vk ≡ false
unfolding is_control_nav_or_function
printable_not_control vk h = ground arith

-- A key of the letter, digit or symbol blocks goes as a character exactly while no command modifier
-- is held, and otherwise as a physical key; it never stays local.
pub classify_key_printable :
    (vk : ℕ) (c a w : Bool)
    → is_printable vk ≡ true
    → classify_key vk c a w ≡ (if c || a || w then physical else character)
unfolding classify_key
classify_key_printable vk c a w h =
    rw (
      printable_not_ime vk h,
      printable_not_modifier vk h,
      printable_not_control vk h,
      classify_key,
    )

modifier_not_ime : (vk : ℕ) (m : Modifier) → modifier_kind vk ≡ some m → is_ime_key vk ≡ false
unfolding modifier_kind is_ime_key
modifier_not_ime vk m h = ground arith

-- Whatever modifiers are held, a key that toggles the composition mode stays local.
pub classify_key_toggle :
    (vk : ℕ) (c a w : Bool) → is_ime_toggle_key vk ≡ true → classify_key vk c a w ≡ ime_local
unfolding classify_key
classify_key_toggle vk c a w h = rw (toggle_is_ime vk h, classify_key)

-- Whatever modifiers are held, a modifier key, Shift included, goes as a physical key.
pub classify_key_modifier :
    (vk : ℕ) (c a w : Bool) (m : Modifier)
    → modifier_kind vk ≡ some m
    → classify_key vk c a w ≡ physical
unfolding classify_key
classify_key_modifier vk c a w m h = rw (modifier_not_ime vk m h, h, classify_key)
