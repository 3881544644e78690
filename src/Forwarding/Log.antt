-- ===== src/Forwarding/Log.antt =====
-- What a log of messages says about the keys and buttons of the peer.
use Prim.Native.String.{String}
use tail_kvm.Base.{◌≡◌, refl, sym, ap, ◌∙◌, Bool, false, List, [], ◌∷◌, ◌++◌, map, append_assoc}
use tail_kvm.Base.Dict.{string_eq}
use tail_kvm.Net.Protocol.{WireMessage, mouse_button, keyboard_key}
use tail_kvm.Session.Held.{Key, key_eq, contains, is_down}

-- The presses and releases among the messages, in order.
abbrev pub button_events : WireMessage → List (String × Bool)
button_events (mouse_button button down) = (button, down) ∷ []
button_events _ = []

abbrev pub key_events : WireMessage → List (Key × Bool)
key_events (keyboard_key vk scan_code down extended) = ((vk, scan_code, extended), down) ∷ []
key_events _ = []

unfoldable pub buttons_of : List WireMessage → List (String × Bool)
buttons_of [] = []
buttons_of (m ∷ ms) = button_events m ++ buttons_of ms

unfoldable pub keys_of : List WireMessage → List (Key × Bool)
keys_of [] = []
keys_of (m ∷ ms) = key_events m ++ keys_of ms

abbrev pub release_button : String → WireMessage
release_button button = mouse_button button false

abbrev pub release_key : Key → WireMessage
release_key (vk, scan_code, extended) = keyboard_key vk scan_code false extended

pub buttons_of-append :
    (ms ns : List WireMessage) → buttons_of (ms ++ ns) ≡ buttons_of ms ++ buttons_of ns
unfolding buttons_of
buttons_of-append [] ns = refl
buttons_of-append (m ∷ ms) ns =
    ap (λ es. button_events m ++ es) (buttons_of-append ms ns)
    ∙ sym (append_assoc (button_events m) (buttons_of ms) (buttons_of ns))

pub keys_of-append : (ms ns : List WireMessage) → keys_of (ms ++ ns) ≡ keys_of ms ++ keys_of ns
unfolding keys_of
keys_of-append [] ns = refl
keys_of-append (m ∷ ms) ns =
    ap (λ es. key_events m ++ es) (keys_of-append ms ns)
    ∙ sym (append_assoc (key_events m) (keys_of ms) (keys_of ns))

pub buttons_of-releases :
    (held : List String) → buttons_of (map release_button held) ≡ map (λ b. (b, false)) held
unfolding buttons_of
buttons_of-releases [] = refl
buttons_of-releases (b ∷ held) = ap (λ es. (b, false) ∷ es) (buttons_of-releases held)

pub keys_of-releases :
    (held : List Key) → keys_of (map release_key held) ≡ map (λ k. (k, false)) held
unfolding keys_of
keys_of-releases [] = refl
keys_of-releases (k ∷ held) = ap (λ es. (k, false) ∷ es) (keys_of-releases held)

-- The record of held buttons, or keys, says what the log leaves down.
abbrev pub TracksButtons : List String → List WireMessage → Type 0
TracksButtons held log = (b : String) → contains b held ≡ is_down b false (buttons_of log)

abbrev pub TracksKeys : List Key → List WireMessage → Type 0
TracksKeys held log = (k : Key) → contains k held ≡ is_down k false (keys_of log)
