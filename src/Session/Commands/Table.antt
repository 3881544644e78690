-- ===== src/Session/Commands/Table.antt =====
-- The table from the name of a session to its slot
-- (apps/tailkvm-ui/src-tauri/src/session/mod.rs).
use Prim.Native.String.{String}
use text.Mathlib.Text.{◌==◌ as str_eq}
use tail_kvm.Base.{
  ℕ, ◌≡◌, refl, ◌∙◌, ap, ◌≢◌, false, none, some, List, [], ◌∷◌, arith, if◌then◌else◌,
}
use tail_kvm.Base.Dict
use tail_kvm.Base.Dict.{string_eq}

-- No name stands twice in the table.
abbrev pub IsOnce : List (String × ℕ) → Type 0
IsOnce m = (k : String) → Dict.lookup k (Dict.erase k m) ≡ none

pub lookup-erase_ne :
    (k j : String) (m : List (String × ℕ))
    → str_eq k j ≡ false
    → Dict.lookup j (Dict.erase k m) ≡ Dict.lookup j m
unfolding Dict.lookup Dict.erase
lookup-erase_ne k j [] h = refl
lookup-erase_ne k j ((i, w) ∷ m) h = ground (
  arith,
  string_eq.beq_iff i k,
  string_eq.beq_iff i j,
  string_eq.beq_iff k j,
  lookup-erase_ne k j m h,
)

pub lookup-erase-insert :
    (k n : String) (v : ℕ) (m : List (String × ℕ))
    → Dict.lookup k (Dict.erase k (Dict.insert n v m)) ≡ Dict.lookup k (Dict.erase k m)
unfolding Dict.lookup Dict.erase Dict.insert
lookup-erase-insert k n v [] = ground (arith, string_eq.beq_iff n k)
lookup-erase-insert k n v ((i, w) ∷ m) = ground (
  arith,
  string_eq.beq_iff i k,
  string_eq.beq_iff i n,
  string_eq.beq_iff n k,
  Dict.lookup-insert n k v m,
  lookup-erase-insert k n v m,
)

pub lookup-erase_absent :
    (k : String) (m : List (String × ℕ))
    → Dict.lookup k m ≡ none
    → Dict.lookup k (Dict.erase k m) ≡ none
unfolding Dict.lookup Dict.erase
lookup-erase_absent k [] h = refl
lookup-erase_absent k ((i, w) ∷ m) h =
    ground (arith, string_eq.beq_iff i k, lookup-erase_absent k m)

pub lookup-erase-erase :
    (k n : String) (m : List (String × ℕ))
    → Dict.lookup k (Dict.erase k m) ≡ none
    → Dict.lookup k (Dict.erase k (Dict.erase n m)) ≡ none
unfolding Dict.lookup Dict.erase
lookup-erase-erase k n [] h = refl
lookup-erase-erase k n ((i, w) ∷ m) h = ground (
  arith,
  string_eq.beq_iff i k,
  string_eq.beq_iff i n,
  string_eq.beq_iff n k,
  lookup-erase_ne n k m,
  lookup-erase_absent k m,
  lookup-erase-erase k n m,
)

pub lookup-started_ne :
    (name other : String) (i : ℕ) (m : List (String × ℕ))
    → str_eq name other ≡ false
    → Dict.lookup other (Dict.insert name i m) ≡ Dict.lookup other m
lookup-started_ne name other i m ne =
    Dict.lookup-insert name other i m ∙ ap (λ b. if b then some i else Dict.lookup other m) ne

pub not_same : (name other : String) → str_eq name other ≡ false → name ≢ other
not_same name other ne e = let same = (string_eq.beq_iff name other).1 e in absurd (cc)

pub some-inj : {i j : ℕ} → some i ≡ some j → i ≡ j
some-inj e = grind arith
