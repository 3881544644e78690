-- ===== src/Clipboard/Echo.antt =====
-- How often a synchronised clipboard broadcasts (apps/tailkvm-ui/src-tauri/src/clipboard_sync.rs), and
-- the echo of what peers have put into it.
use Prim.Native.String.{String}
use text.Mathlib.Text.{◌==◌ as str_eq}
use tail_kvm.Base.{ℕ, ◌+◌, ◌≡◌, Option, none, some, List, length, if◌then◌else◌}
use tail_kvm.Clipboard.{Codec, is_last, take_chars}
use tail_kvm.Clipboard.Sync.{Sync, max_text_chars}
use tail_kvm.Clipboard.History.{Clipboard, Machine}

module _ (c : Codec) where
  -- The hash of what the watcher would broadcast from a clipboard.
  abbrev image_hash : Option (List ℕ) → Option ℕ
  image_hash none = none
  image_hash (some dib) = some (c.content_hash_bytes dib)

  abbrev text_hash : Option String → Option (List ℕ) → Option ℕ
  text_hash none dib = image_hash dib
  text_hash (some text) dib =
      if str_eq text ""
      then image_hash dib
      else some (c.content_hash (take_chars max_text_chars text))

  -- The messages the watcher may still broadcast: one, if the clipboard holds something new.
  abbrev owed : Option ℕ → Option ℕ → ℕ
  owed none last = 0
  owed (some hash) last = if is_last last hash then 0 else 1

  abbrev pending : Machine → ℕ
  pending m = owed (text_hash m.clipboard.text m.clipboard.dib) m.sync.guard.last_hash

  abbrev total : Option ℕ → Sync → ℕ
  total h s = length s.broadcasts + owed h s.guard.last_hash

  abbrev Keeps : Sync → Sync → Type 0
  Keeps s r = (r.broadcasts ≡ s.broadcasts) × (r.guard ≡ s.guard)
