-- ===== src/Session/Relay.antt =====
-- The clipboard hub, `relay_message` and `broadcast_message` of
-- apps/tailkvm-ui/src-tauri/src/clipboard_sync.rs.
use Prim.Native.String.{String}
use package.text.Mathlib.Text.{◌==◌ as str_eq}
use tail_kvm.Base.{
  ℕ, ◌+◌, ◌≡◌, refl, Bool, true, false, ◌&&◌, not, Option, none, some, List, [], ◌∷◌, arith,
  if◌then◌else◌,
}
use tail_kvm.Base.Dict.{string_eq}
use tail_kvm.Session.Held.{contains}

-- A named session: its name and its sender, if it has one; the sender's flag says whether the other
-- end still receives, so that `send` succeeds.
abbrev pub Peer : Type 0
Peer = String × Option Bool

-- Whether `send` on the slot of a session delivers.
abbrev pub delivers : Option Bool → Bool
delivers none = false
delivers (some open_end) = open_end

-- `relay_message`: the sessions that got the message, in order, whose number the code returns.
unfoldable pub relay_message : List Peer → String → List String
relay_message [] origin = []
relay_message ((name, tx) ∷ ps) origin =
    let rest = relay_message ps origin in
    if str_eq name origin then rest else if delivers tx then name ∷ rest else rest

-- `broadcast_message`: all named sessions, and then the two slots of the 1:1 channels.
unfoldable pub broadcast_message : List Peer → Option Bool → Option Bool → ℕ
broadcast_message [] controller_tx receiver_tx =
    (if delivers controller_tx then 1 else 0) + (if delivers receiver_tx then 1 else 0)
broadcast_message ((name, tx) ∷ ps) controller_tx receiver_tx =
    (if delivers tx then 1 else 0) + broadcast_message ps controller_tx receiver_tx

-- Whether a session of that name can get messages.
pub is_connected : String → List Peer → Bool
is_connected name [] = false
is_connected name ((other, tx) ∷ ps) =
    if str_eq other name && delivers tx then true else is_connected name ps

-- A session gets the relayed message exactly if it is connected and is not the one it came from.
pub contains-relay_message :
    (ps : List Peer) (origin name : String)
    → contains name (relay_message ps origin) ≡ (is_connected name ps && not (str_eq name origin))
unfolding relay_message is_connected contains
contains-relay_message [] origin name = refl
contains-relay_message ((other, tx) ∷ ps) origin name = ground (
  arith,
  contains-relay_message ps origin name,
  string_eq.beq_iff other origin,
  string_eq.beq_iff other name,
  string_eq.beq_iff name origin,
)
