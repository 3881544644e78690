-- ===== src/Clipboard.antt =====
-- The echo guard of the clipboard synchronisation, crates/tailkvm-win32/src/clipboard.rs, and the two
-- functions that the synchronisation takes from elsewhere: the hasher and the base64 encoder.
use Prim.Native.String.count
use Prim.Native.String.{String, [], ◌∷◌, count}
use tail_kvm.Base.{
  ap, arith, ◌≤◌, ◌≡◌, refl, ℕ, zero, suc, Bool, true, false, Option, none, some, List, ◌==◌,
  if◌then◌else◌,
}
pub mod Sync
pub mod History
pub mod Echo
mod Tests

-- The standard library's `DefaultHasher`, whose algorithm is not specified, and the base64 encoder.
pub record Codec : Type 0 where
  pub content_hash : String → ℕ
  pub content_hash_bytes : List ℕ → ℕ
  pub encode_dib : List ℕ → String

pub record ClipboardLoopGuard : Type 0 where
  pub last_hash : Option ℕ

abbrev pub new : ClipboardLoopGuard
new = record { last_hash = none }

-- `self.last_hash == Some(hash)`
unfoldable pub is_last : Option ℕ → ℕ → Bool
is_last none hash = false
is_last (some last) hash = last == hash

pub is_last_self : (hash : ℕ) → is_last (some hash) hash ≡ true
unfolding is_last
is_last_self hash = ground arith

abbrev pub remember : ℕ → ClipboardLoopGuard → ClipboardLoopGuard
remember hash g = record g { last_hash = some hash }

abbrev pub judge : ℕ → ClipboardLoopGuard → ClipboardLoopGuard × Bool
judge hash g = if is_last g.last_hash hash then (g, false) else (remember hash g, true)

unfoldable pub should_broadcast : Codec → String → ClipboardLoopGuard → ClipboardLoopGuard × Bool
unfolding is_last
should_broadcast c text g = judge (c.content_hash text) g

unfoldable pub mark_applied : Codec → String → ClipboardLoopGuard → ClipboardLoopGuard
mark_applied c text g = remember (c.content_hash text) g

unfoldable pub should_broadcast_bytes :
    Codec → List ℕ → ClipboardLoopGuard → ClipboardLoopGuard × Bool
unfolding is_last
should_broadcast_bytes c bytes g = judge (c.content_hash_bytes bytes) g

unfoldable pub mark_applied_bytes : Codec → List ℕ → ClipboardLoopGuard → ClipboardLoopGuard
mark_applied_bytes c bytes g = remember (c.content_hash_bytes bytes) g

-- `text.chars().take(n).collect::<String>()`
unfoldable pub take_chars : ℕ → String → String
take_chars n [] = ""
take_chars zero (c ∷ text) = ""
take_chars (suc n) (c ∷ text) = c ∷ take_chars n text

pub take_chars_all : (n : ℕ) (text : String) → count text ≤ n → take_chars n text ≡ text
unfolding take_chars
take_chars_all n [] h = refl
take_chars_all zero (c ∷ text) h = absurd (omega (arith, h, count.cons c text))
take_chars_all (suc n) (c ∷ text) h =
    ap (λ t. c ∷ t) (take_chars_all n text (omega (arith, h, count.cons c text)))
