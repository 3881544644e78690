-- ===== src/Session/Commands/Slots.antt =====
-- The shared sessions of `start_named_session`, one slot each
-- (apps/tailkvm-ui/src-tauri/src/session/mod.rs).
use tail_kvm.Base.{
  ℕ, zero, suc, ◌<◌, ◌≡◌, refl, sym, ◌∙◌, ap, ◌≢◌, Bool, true, false, none, List, [], ◌∷◌, ◌++◌,
  length, length-set, set, arith,
}
use tail_kvm.Session.Commands.{ScreenSession}

-- The supervisor of a slot is to go on.
unfoldable pub runs : List ScreenSession → ℕ → Bool
runs [] i = false
runs (x ∷ xs) zero = x.should_run
runs (x ∷ xs) (suc i) = runs xs i

abbrev pub halted : ScreenSession
halted = record { should_run = false; tx = none }

abbrev pub fresh : ScreenSession
fresh = record { should_run = true; tx = none }

pub runs-lt : (xs : List ScreenSession) (i : ℕ) → runs xs i ≡ true → i < length xs
unfolding runs
runs-lt [] i h = absurd (cc)
runs-lt (x ∷ xs) zero h = omega arith
runs-lt (x ∷ xs) (suc i) h = omega (arith, runs-lt xs i h)

-- A slot is stopped and a running one is put at the end.
abbrev pub turned : List ScreenSession → ℕ → List ScreenSession
turned xs i = set xs i halted ++ (fresh ∷ [])

pub runs-set_self : (xs : List ScreenSession) (i : ℕ) → runs (set xs i halted) i ≡ false
unfolding runs
runs-set_self [] i = refl
runs-set_self (x ∷ xs) zero = refl
runs-set_self (x ∷ xs) (suc i) = runs-set_self xs i

pub runs-set_ne : (xs : List ScreenSession) (i j : ℕ) → i ≢ j → runs (set xs i halted) j ≡ runs xs j
unfolding runs
runs-set_ne [] i j h = refl
runs-set_ne (x ∷ xs) zero zero h = absurd (h refl)
runs-set_ne (x ∷ xs) zero (suc j) h = refl
runs-set_ne (x ∷ xs) (suc i) zero h = refl
runs-set_ne (x ∷ xs) (suc i) (suc j) h = runs-set_ne xs i j (λ e. h (ap suc e))

pub runs-append_last : (xs : List ScreenSession) → runs (xs ++ (fresh ∷ [])) (length xs) ≡ true
unfolding runs
runs-append_last [] = refl
runs-append_last (x ∷ xs) = runs-append_last xs

pub runs-append_ne :
    (xs : List ScreenSession) (i : ℕ) → i ≢ length xs → runs (xs ++ (fresh ∷ [])) i ≡ runs xs i
unfolding runs
runs-append_ne [] zero h = absurd (h refl)
runs-append_ne [] (suc i) h = refl
runs-append_ne (x ∷ xs) zero h = refl
runs-append_ne (x ∷ xs) (suc i) h = runs-append_ne xs i (λ e. h (ap suc e))

pub runs-turned_ne :
    (xs : List ScreenSession) (i j : ℕ)
    → j ≢ length xs
    → runs (turned xs i) j ≡ runs (set xs i halted) j
runs-turned_ne xs i j ne = runs-append_ne (set xs i halted) j (λ e. ne (e ∙ length-set xs i halted))

pub runs-turned_last : (xs : List ScreenSession) (i : ℕ) → runs (turned xs i) (length xs) ≡ true
runs-turned_last xs i =
    ap (runs (turned xs i)) (sym (length-set xs i halted)) ∙ runs-append_last (set xs i halted)
