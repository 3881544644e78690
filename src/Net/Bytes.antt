-- ===== src/Net/Bytes.antt =====
-- Little-endian bytes, `to_le_bytes` and `from_le_bytes` of Rust's integers.
use native.Mathlib.Nat.{pow-suc, zero-add, suc-add}
use tail_kvm.Base.{
  ℕ, zero, suc, ◌+◌, ◌*◌, ◌/◌, ◌%◌, ◌^◌, ◌<◌, ◌≡◌, refl, ap, List, [], ◌∷◌, ◌++◌, arith, length,
  take, drop, get_or,
}

-- The `k` low bytes of `n`, lowest first.
unfoldable pub le_bytes : ℕ → ℕ → List ℕ
le_bytes zero n = []
le_bytes (suc k) n = (n % 256) ∷ le_bytes k (n / 256)

unfoldable pub from_le_bytes : List ℕ → ℕ
from_le_bytes [] = 0
from_le_bytes (b ∷ bs) = b + 256 * from_le_bytes bs

abbrev pub AllBytes : List ℕ → Type 0
AllBytes [] = Unit
AllBytes (b ∷ bs) = (b < 256) × AllBytes bs

pub length-le_bytes : (k n : ℕ) → length (le_bytes k n) ≡ k
unfolding le_bytes
length-le_bytes zero n = refl
length-le_bytes (suc k) n = ap suc (length-le_bytes k (n / 256))

pub le_bytes-AllBytes : (k n : ℕ) → AllBytes (le_bytes k n)
unfolding le_bytes
le_bytes-AllBytes zero n = tt
le_bytes-AllBytes (suc k) n = (omega arith, le_bytes-AllBytes k (n / 256))

-- Where the number fits, reading back the bytes gives it.
pub from_le_bytes-le_bytes : (k n : ℕ) → n < 256 ^ k → from_le_bytes (le_bytes k n) ≡ n
unfolding le_bytes from_le_bytes
from_le_bytes-le_bytes zero n h = omega arith
from_le_bytes-le_bytes (suc k) n h =
    omega (arith, from_le_bytes-le_bytes k (n / 256) (omega (arith, pow-suc 256 k)))

pub le_bytes-from_le_bytes :
    (bs : List ℕ) → AllBytes bs → le_bytes (length bs) (from_le_bytes bs) ≡ bs
unfolding le_bytes from_le_bytes
le_bytes-from_le_bytes [] h = refl
le_bytes-from_le_bytes (b ∷ bs) (hb, h) =
    let low : (b + 256 * from_le_bytes bs) % 256 ≡ b = omega arith in
    let high : (b + 256 * from_le_bytes bs) / 256 ≡ from_le_bytes bs = omega arith in
    cc (low, high, le_bytes-from_le_bytes bs h)

pub from_le_bytes-lt : (bs : List ℕ) → AllBytes bs → from_le_bytes bs < 256 ^ length bs
unfolding from_le_bytes
from_le_bytes-lt [] h = omega arith
from_le_bytes-lt (b ∷ bs) (hb, h) = omega (arith, pow-suc 256 (length bs), from_le_bytes-lt bs h)

module _ {ℓ} {A : Type ℓ} where
  pub take-append : (xs ys : List A) → take (length xs) (xs ++ ys) ≡ xs
  take-append [] ys = refl
  take-append (x ∷ xs) ys = ap (λ zs. x ∷ zs) (take-append xs ys)

  pub drop-append : (xs ys : List A) → drop (length xs) (xs ++ ys) ≡ ys
  drop-append [] ys = refl
  drop-append (x ∷ xs) ys = drop-append xs ys

  pub drop-drop : (m n : ℕ) (xs : List A) → drop m (drop n xs) ≡ drop (n + m) xs
  drop-drop m zero xs = rw (zero-add m)
  drop-drop m (suc n) [] = rw (drop-nil m, suc-add n m)
    where
      drop-nil : (k : ℕ) → drop {A = A} k [] ≡ []
      drop-nil zero = refl
      drop-nil (suc k) = refl
  drop-drop m (suc n) (x ∷ xs) = rw (suc-add n m) (drop-drop m n xs)

  -- The elements from place `i` on.
  pub drop_cons :
      (i : ℕ) (xs : List A) (d : A) → i < length xs → drop i xs ≡ get_or xs i d ∷ drop (suc i) xs
  drop_cons i [] d h = elim h [ ]
  drop_cons zero (x ∷ xs) d h = refl
  drop_cons (suc i) (x ∷ xs) d h = drop_cons i xs d (omega arith)

  pub take_all : (n : ℕ) (xs : List A) → length xs ≡ n → take n xs ≡ xs
  take_all n xs h = rw (← h) (go xs)
    where
      go : (ys : List A) → take (length ys) ys ≡ ys
      go [] = refl
      go (y ∷ ys) = ap (λ zs. y ∷ zs) (go ys)

pub take-AllBytes : (n : ℕ) (bs : List ℕ) → AllBytes bs → AllBytes (take n bs)
take-AllBytes zero bs h = tt
take-AllBytes (suc n) [] h = tt
take-AllBytes (suc n) (b ∷ bs) (hb, h) = (hb, take-AllBytes n bs h)

pub drop-AllBytes : (n : ℕ) (bs : List ℕ) → AllBytes bs → AllBytes (drop n bs)
drop-AllBytes zero bs h = h
drop-AllBytes (suc n) [] h = tt
drop-AllBytes (suc n) (b ∷ bs) (hb, h) = drop-AllBytes n bs h

-- A chunk of `k` bytes is what its number encodes to.
pub le_bytes_chunk :
    (k : ℕ) (bs : List ℕ)
    → length bs ≡ k
    → AllBytes bs
    → (le_bytes k (from_le_bytes bs) ≡ bs) × (from_le_bytes bs < 256 ^ k)
le_bytes_chunk k bs e h = rw (← e) (le_bytes-from_le_bytes bs h, from_le_bytes-lt bs h)
