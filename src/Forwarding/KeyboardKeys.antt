-- ===== src/Forwarding/KeyboardKeys.antt =====
-- What the keyboard forwarding thread keeps when it handles a key: its record is what the peer holds down,
-- and the composition mode, the capture window and the pass-through go together
-- (apps/tailkvm-ui/src-tauri/src/forwarding.rs).
use Prim.Native.String.{String}
use mathlib.Core.Path.{subst}
use tail_kvm.Base.{
  ℕ, ◌≤◌, ◌≡◌, refl, sym, ap, ◌∙◌, Bool, true, false, not, Option, none, some, List, [], ◌∷◌, ◌++◌,
  map, append-nil, if◌then◌else◌,
}
use tail_kvm.Base.Int.{ℤ}
use tail_kvm.Net.Protocol.{WireMessage, keyboard_text, keyboard_key}
use tail_kvm.KeyClass.{
  KeyRoute, physical, character, ime_local, Modifier, ctrl, alt, win, shift, modifier_kind,
  is_ime_toggle_key, classify_key,
}
use tail_kvm.Ime.Mode.{
  ImeModeState, off, armed, composing, suspended, is_on, on_toggle, on_entry_failure, as_str,
}
use tail_kvm.Session.Held.{
  Key, key_eq, contains, track_key_press, contains-track, is_down, is_down-append, is_down_one,
  is_down-release,
}
use tail_kvm.Forwarding.{send_ok}
use tail_kvm.Forwarding.Log.{keys_of, keys_of-append, keys_of-releases, release_key, TracksKeys}
use tail_kvm.Forwarding.Anchor.{resolve_ime_anchor, resolve_ime_anchor_total}
use tail_kvm.Forwarding.Keyboard.{
  World, Keyboard, Outcome, go_on, leave, panicked, composition_off, push, forward,
  release_pressed_keys, with_modifier, track_modifier, send_physical, send_text, entered, is_armed,
  toggle, ime_key, composing_key, resolved, character_key, routed, handle_key,
}

-- A text does not change what is down.
pub text-TracksKeys :
    (held : List Key) (log : List WireMessage) (text : String)
    → TracksKeys held log
    → TracksKeys held (log ++ (keyboard_text text ∷ []))
unfolding keys_of
text-TracksKeys held log text h k =
    h k ∙ ap (is_down k false) (sym (append-nil (keys_of log)) ∙ sym (keys_of-append log _))

key-TracksKeys :
    (held : List Key) (log : List WireMessage) (vk scan_code : ℕ) (down extended : Bool)
    → TracksKeys held log
    → TracksKeys
        (track_key_press held vk scan_code extended down)
        (log ++ (keyboard_key vk scan_code down extended ∷ []))
unfolding track_key_press keys_of
key-TracksKeys held log vk scan_code down extended h k =
    let j : Key = (vk, scan_code, extended) in
    contains-track k j held down
    ∙ ap (λ d. if key_eq.beq j k then down else d) (h k)
    ∙ sym (is_down_one k j (is_down k false (keys_of log)) down)
    ∙ sym (is_down-append k false (keys_of log) ((j, down) ∷ []))
    ∙ ap (is_down k false) (sym (keys_of-append log _))

if_out : (b : Bool) → (if b then false else b) ≡ false
if_out true = refl
if_out false = refl

-- After the releases nothing is down.
pub all_up :
    (held : List Key) (log : List WireMessage)
    → TracksKeys held log
    → (k : Key) → is_down k false (keys_of (log ++ map release_key held)) ≡ false
all_up held log h k =
    ap (is_down k false) (
      keys_of-append log (map release_key held)
      ∙ ap (λ rs. keys_of log ++ rs) (keys_of-releases held))
    ∙ is_down-append k false (keys_of log) _
    ∙ is_down-release k (is_down k false (keys_of log)) held
    ∙ ap (λ c. if c then false else is_down k false (keys_of log)) (h k)
    ∙ if_out (is_down k false (keys_of log))

pub release-TracksKeys :
    (held : List Key) (log : List WireMessage)
    → TracksKeys held log
    → TracksKeys [] (log ++ map release_key held)
unfolding contains
release-TracksKeys held log h k = sym (all_up held log h k)

-- The record says what is down; the capture window is there exactly while the mode is on; the hook passes
-- keys through exactly then, as far as this thread owns it; and no older thread has the next generation.
abbrev pub Inv : Keyboard → Type 0
Inv k =
    TracksKeys k.pressed_keys k.sends
    × (is_on k.ime_mode ≡ k.ime_capture)
    × (k.hook.generation ≡ k.my_gen → k.passthrough ≡ k.ime_capture)
    × (k.my_gen ≤ k.hook.generation)

-- A turn that does not panic keeps this, and the generation.
abbrev pub Sound : ℕ → Outcome → Type 0
Sound g (go_on k) = Inv k × (k.hook.generation ≡ g)
Sound g (leave k) = Inv k × (k.hook.generation ≡ g)
Sound g (panicked k) = ⊥

pub if-Sound :
    (g : ℕ) (b : Bool) (x y : Outcome) → Sound g x → Sound g y → Sound g (if b then x else y)
if-Sound g true x y hx hy = hx
if-Sound g false x y hx hy = hy

module _ (w : World) where
  forward-Sound :
      (k : Keyboard) (m : WireMessage) → Inv (push m k) → Sound k.hook.generation (forward w k m)
  forward-Sound k m h = if-Sound k.hook.generation (send_ok w.target') _ _ (h, refl) (h, refl)

  send_physical-Sound :
      (k : Keyboard) (vk scan_code : ℕ) (down extended : Bool)
      → Inv k
      → Sound k.hook.generation (send_physical w k vk scan_code down extended)
  unfolding send_physical
  send_physical-Sound k vk scan_code down extended (t, mode, pass, older) =
      forward-Sound
        (record k { pressed_keys = track_key_press k.pressed_keys vk scan_code extended down })
        (keyboard_key vk scan_code down extended)
        (key-TracksKeys k.pressed_keys k.sends vk scan_code down extended t, mode, pass, older)

  send_text-Sound :
      (k : Keyboard) (text : String) → Inv k → Sound k.hook.generation (send_text w k text)
  unfolding send_text
  send_text-Sound k text (t, mode, pass, older) =
      forward-Sound k (keyboard_text text)
        (text-TracksKeys k.pressed_keys k.sends text t, mode, pass, older)

  entered-Sound :
      (k : Keyboard) (anchor : ℤ × ℤ)
      → Inv k
      → is_on k.ime_mode ≡ false
      → Sound k.hook.generation (entered w k (some anchor))
  unfolding is_on release_pressed_keys on_entry_failure
  entered-Sound k anchor (t, mode, pass, older) off_before =
      if-Sound k.hook.generation w.capture_ok _ _
        ((release-TracksKeys k.pressed_keys k.sends t, refl, λ _. refl, older), refl)
        ((t, sym off_before ∙ mode, pass, older), refl)

  off_before_armed : (m : ImeModeState) → is_armed (on_toggle m) ≡ true → is_on m ≡ false
  unfolding on_toggle is_on
  off_before_armed off e = refl
  off_before_armed suspended e = refl
  off_before_armed armed e = cc
  off_before_armed composing e = cc

  toggle-Sound : (k : Keyboard) → Inv k → Sound k.hook.generation (toggle w k)
  unfolding toggle is_on
  toggle-Sound k h = choose (is_armed (on_toggle k.ime_mode)) refl
    where
      choose :
          (b : Bool)
          → is_armed (on_toggle k.ime_mode) ≡ b
          → Sound k.hook.generation (
              if b
              then entered w k (resolve_ime_anchor w.settings w.ime_anchor w.desktop)
              else go_on (record k {
                ime_capture = false;
                ime_mode = off;
                passthrough = false;
                shown_mode = as_str off;
                last_event = composition_off;
              }))
      choose true e =
          let (p, found) = resolve_ime_anchor_total w.settings w.ime_anchor w.desktop in
          subst (λ a. Sound k.hook.generation (entered w k a)) (sym found)
            (entered-Sound k p h (off_before_armed k.ime_mode e))
      choose false e = ((h.0, refl, λ _. refl, h.3), refl)

  ime_key-Sound :
      (k : Keyboard) (vk : ℕ) (down : Bool) → Inv k → Sound k.hook.generation (ime_key w k vk down)
  unfolding ime_key
  ime_key-Sound k vk down h =
      if-Sound k.hook.generation (not (is_ime_toggle_key vk)) _ _ (h, refl)
        (if-Sound k.hook.generation down _ _
          (if-Sound k.hook.generation k.ime_toggle_held _ _ (h, refl)
            (toggle-Sound (record k { ime_toggle_held = true }) h))
          (h, refl))

  composing_key-Sound :
      (k : Keyboard) (route : KeyRoute) (vk scan_code : ℕ) (down extended : Bool)
      → Inv k
      → Sound k.hook.generation (composing_key w k route vk scan_code down extended)
  unfolding composing_key
  composing_key-Sound k physical vk scan_code down extended h =
      if-Sound k.hook.generation w.is_composing' _ _ (h, refl)
        (send_physical-Sound k vk scan_code down extended h)
  composing_key-Sound k character vk scan_code down extended h = (h, refl)
  composing_key-Sound k ime_local vk scan_code down extended h = (h, refl)

  resolved-Sound :
      (k : Keyboard) (vk scan_code : ℕ) (down extended : Bool) (text : Option String)
      → Inv k
      → Sound k.hook.generation (resolved w k vk scan_code down extended text)
  resolved-Sound k vk scan_code down extended (some text) h = send_text-Sound k text h
  resolved-Sound k vk scan_code down extended none h =
      send_physical-Sound k vk scan_code down extended h

  character_key-Sound :
      (k : Keyboard) (vk scan_code : ℕ) (down extended : Bool)
      → Inv k
      → Sound k.hook.generation (character_key w k vk scan_code down extended)
  unfolding character_key
  character_key-Sound k vk scan_code down extended h =
      if-Sound k.hook.generation down _ _
        (resolved-Sound k vk scan_code down extended
          (w.resolve_key_text vk scan_code k.shift_down w.caps_toggled) h)
        (if-Sound k.hook.generation (contains (vk, scan_code, extended) k.pressed_keys) _ _
          (send_physical-Sound k vk scan_code down extended h) (h, refl))

  routed-Sound :
      (k : Keyboard) (vk scan_code : ℕ) (down extended : Bool) (route : KeyRoute)
      → Inv k
      → Sound k.hook.generation (routed w k vk scan_code down extended route)
  routed-Sound k vk scan_code down extended ime_local h = ime_key-Sound k vk down h
  routed-Sound k vk scan_code down extended physical h =
      if-Sound k.hook.generation (is_on k.ime_mode) _ _
        (composing_key-Sound k physical vk scan_code down extended h)
        (send_physical-Sound k vk scan_code down extended h)
  routed-Sound k vk scan_code down extended character h =
      if-Sound k.hook.generation (is_on k.ime_mode) _ _
        (composing_key-Sound k character vk scan_code down extended h)
        (character_key-Sound k vk scan_code down extended h)

  -- The modifiers are of no concern here.
  track_modifier-Inv :
      (k : Keyboard) (vk : ℕ) (down : Bool)
      → Inv k
      → Inv (track_modifier k vk down)
        × ((track_modifier k vk down).hook.generation ≡ k.hook.generation)
  unfolding track_modifier
  track_modifier-Inv k vk down h = by_kind (modifier_kind vk)
    where
      by_kind :
          (m : Option Modifier)
          → Inv (with_modifier k down m)
            × ((with_modifier k down m).hook.generation ≡ k.hook.generation)
      by_kind none = (h, refl)
      by_kind (some ctrl) = (h, refl)
      by_kind (some alt) = (h, refl)
      by_kind (some win) = (h, refl)
      by_kind (some shift) = (h, refl)

  pub handle_key-Sound :
      (k : Keyboard) (vk scan_code : ℕ) (down extended : Bool)
      → Inv k
      → Sound k.hook.generation (handle_key w k vk scan_code down extended)
  unfolding handle_key
  handle_key-Sound k vk scan_code down extended h =
      let k' : Keyboard = track_modifier k vk down in
      let (h', same) = track_modifier-Inv k vk down h in
      subst (λ g. Sound g (handle_key w k vk scan_code down extended)) same
        (if-Sound k'.hook.generation w.resolve_characters _ _
          (routed-Sound k' vk scan_code down extended
            (classify_key vk k'.ctrl_down k'.alt_down k'.win_down) h')
          (send_physical-Sound k' vk scan_code down extended h'))
