-- ===== src/Clipboard/Tests.antt =====
-- A text that goes round: copied here, broadcast, and another one applied
-- (apps/tailkvm-ui/src-tauri/src/clipboard_sync.rs).
use tail_kvm.Base.{◌+◌, ◌≡◌, refl, true, none, some, List, [], ◌∷◌, length}
use tail_kvm.Net.Protocol.{clipboard_text}
use tail_kvm.Clipboard
use tail_kvm.Clipboard.{Codec}
use tail_kvm.Clipboard.Sync.{idle}
use tail_kvm.Clipboard.History.{Event, Machine, copied, watched, text_applied, run}
use Prim.Native.String.{count}

abbrev codec : Codec
codec = record {
  content_hash = count;
  content_hash_bytes = λ dib. 1000 + length dib;
  encode_dib = λ dib. "dib";
}

abbrev machine : Machine
machine = record {
  clipboard = record { text = none; dib = none };
  sync = record {
    sync_running = true;
    watch = true;
    guard = Clipboard.new;
    broadcasts = [];
    queued = [];
    role = "controller";
    connected = true;
    last_event = idle;
  };
}

abbrev told : Event
told = watched true (("laptop", some true) ∷ []) none none

abbrev history : List Event
history =
    copied (record { text = some "draft"; dib = none })
    ∷ told
    ∷ told
    ∷ text_applied "an answer"
    ∷ told
    ∷ told
    ∷ []

one_broadcast : (run codec machine history).sync.broadcasts ≡ clipboard_text "draft" ∷ []
unfolding run
one_broadcast = refl

-- A text with a NUL is read back shortened, and is broadcast.
echoes :
    (run codec machine (text_applied "an\0swer" ∷ told ∷ [])).sync.broadcasts
    ≡ clipboard_text "an" ∷ []
unfolding run
echoes = refl
