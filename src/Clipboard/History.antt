-- ===== src/Clipboard/History.antt =====
-- Histories of a machine whose clipboard is synchronised
-- (apps/tailkvm-ui/src-tauri/src/clipboard_sync.rs, and the sessions' arms for clipboard messages).
use Prim.Native.Char.{code}
use Prim.Native.String.{String, [], ◌∷◌, count}
use tail_kvm.Base.{
  ℕ, ◌+◌, ◌≤◌, ◌≡◌, Bool, true, false, Option, none, some, List, [], ◌∷◌, ◌++◌, ◌==◌, if◌then◌else◌,
}
use tail_kvm.Session.Relay.{Peer}
use tail_kvm.Clipboard.{Codec, mark_applied, mark_applied_bytes}
use tail_kvm.Clipboard.Sync.{
  Read, unreadable, nothing, found, changed, Sync, World, go_on, leave, Outcome, max_text_chars,
  turn, send_clipboard_text, send_clipboard_image, set_clipboard_sync,
}

-- What the clipboard of the machine holds, in each format.
pub record Clipboard : Type 0 where
  pub text : Option String
  pub dib : Option (List ℕ)

pub record Machine : Type 0 where
  pub clipboard : Clipboard
  pub sync : Sync

abbrev pub read {ℓ} : {A : Type ℓ} → Bool → Option A → Read A
read false x = unreadable
read true none = nothing
read true (some x) = found x

-- What `get_clipboard_text` reads of a text: it stops at the first NUL.
unfoldable pub until_nul : String → String
until_nul [] = []
until_nul (c ∷ text) = let rest = until_nul text in if code c == 0 then [] else c ∷ rest

-- A history of a machine. The clipboard comes to hold something (`copied`), by the user or by a session.
-- The watcher is told of a change, reads the clipboard, where the image may be unreadable, and asks the
-- guard at once (`watched`), or it asks the guard about something that it has read before, or could not
-- read (`watched_late`). A session marks the content of a peer (`text_marked`, `image_marked`), and puts
-- it into the clipboard with nothing of the above in between (`text_applied`, `image_applied`, the block
-- of an image being read back with its padding), or what is read back then is something else, also
-- where the content could not be put in (`text_altered`, `image_altered`). The user sends a text or an
-- image that was read, or turns the synchronisation on or off. A session that is overtaken between its mark and
-- its content is `text_marked` and later `copied`.
pub data Event : Type 0 where
  copied : Clipboard → Event
  watched : (dib_ok : Bool) (sessions : List Peer) (controller_tx receiver_tx : Option Bool) → Event
  watched_late :
      Clipboard
      → (dib_ok : Bool) (sessions : List Peer) (controller_tx receiver_tx : Option Bool) → Event
  text_marked text_applied : String → Event
  image_marked : List ℕ → Event
  image_applied : (dib padding : List ℕ) → Event
  text_altered : String → Clipboard → Event
  image_altered : List ℕ → Clipboard → Event
  text_sent image_sent : Clipboard → (controller_tx : Option Bool) → Event
  sync_set : (enabled start_ok : Bool) → Event

abbrev pub world : Clipboard → Bool → List Peer → Option Bool → Option Bool → World
world b dib_ok sessions controller_tx receiver_tx = record {
  received = changed;
  text = read true b.text;
  dib = read dib_ok b.dib;
  sessions = sessions;
  controller_tx = controller_tx;
  receiver_tx = receiver_tx;
}

abbrev pub state_of : Outcome → Sync
state_of (go_on s) = s
state_of (leave s) = s

-- The messages that an event can give rise to, now or at a later turn of the watcher.
abbrev pub cause : Event → ℕ
cause (copied b) = 1
cause (watched dib_ok sessions controller_tx receiver_tx) = 0
cause (watched_late b dib_ok sessions controller_tx receiver_tx) = 2
cause (text_marked text) = 1
cause (image_marked dib) = 1
cause (text_applied text) = 0
cause (image_applied dib padding) = 0
cause (text_altered text b) = 1
cause (image_altered dib b) = 1
cause (text_sent b tx) = 1
cause (image_sent b tx) = 1
cause (sync_set enabled start_ok) = 0

unfoldable pub causes : List Event → ℕ
causes [] = 0
causes (e ∷ es) = cause e + causes es

-- A text that is applied is capped, as the senders do, and has no NUL; the block of an image that is
-- applied has no padding. Other contents are altered ones.
abbrev pub IsIntact : Event → Type 0
IsIntact (text_applied text) = (count text ≤ max_text_chars) × (until_nul text ≡ text)
IsIntact (image_applied dib padding) = padding ≡ []
IsIntact _ = Unit {0}

abbrev pub AreIntact : List Event → Type 0
AreIntact [] = Unit {0}
AreIntact (e ∷ es) = IsIntact e × AreIntact es

module _ (c : Codec) where
  unfoldable pub advance : Event → Machine → Machine
  unfolding turn send_clipboard_text send_clipboard_image set_clipboard_sync mark_applied
      mark_applied_bytes until_nul
  advance (copied b) m = record m { clipboard = b }
  advance (watched dib_ok sessions controller_tx receiver_tx) m = record m {
    sync = state_of (turn c (world m.clipboard dib_ok sessions controller_tx receiver_tx) m.sync);
  }
  advance (watched_late b dib_ok sessions controller_tx receiver_tx) m = record m {
    sync = state_of (turn c (world b dib_ok sessions controller_tx receiver_tx) m.sync);
  }
  advance (text_marked text) m = record m {
    sync = record m.sync { guard = mark_applied c text m.sync.guard };
  }
  advance (image_marked dib) m = record m {
    sync = record m.sync { guard = mark_applied_bytes c dib m.sync.guard };
  }
  advance (text_applied text) m = record {
    clipboard = record { text = some (until_nul text); dib = none };
    sync = record m.sync { guard = mark_applied c text m.sync.guard };
  }
  advance (image_applied dib padding) m = record {
    clipboard = record { text = none; dib = some (dib ++ padding) };
    sync = record m.sync { guard = mark_applied_bytes c dib m.sync.guard };
  }
  advance (text_altered text b) m = record {
    clipboard = b;
    sync = record m.sync { guard = mark_applied c text m.sync.guard };
  }
  advance (image_altered dib b) m = record {
    clipboard = b;
    sync = record m.sync { guard = mark_applied_bytes c dib m.sync.guard };
  }
  advance (text_sent b tx) m = record m {
    sync = (send_clipboard_text c tx (read true b.text) m.sync).0;
  }
  advance (image_sent b tx) m = record m {
    sync = (send_clipboard_image c tx (read true b.dib) m.sync).0;
  }
  advance (sync_set enabled start_ok) m = record m {
    sync = (set_clipboard_sync enabled start_ok m.sync).0;
  }

  unfoldable pub run : Machine → List Event → Machine
  unfolding advance
  run m [] = m
  run m (e ∷ es) = run (advance e m) es
