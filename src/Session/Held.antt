-- ===== src/Session/Held.antt =====
-- The record of held buttons and keys, `track_button_press` and `track_key_press` of
-- apps/tailkvm-ui/src-tauri/src/forwarding.rs.
use Prim.Native.String.{String}
use tail_kvm.Base.{
  ℕ, ◌≡◌, refl, ap, ◌∙◌, ◌↔◌, inl, inr, Bool, true, false, not, ◌&&◌, ◌||◌, Bool-cases, List, [],
  ◌∷◌, ◌++◌, map, arith, ◌==◌, if◌then◌else◌,
}
use tail_kvm.Base.Dict.{Eq, string_eq}

-- `(vk, scan_code, extended)`
abbrev pub Key : Type 0
Key = ℕ × ℕ × Bool

pub bool_beq : Bool → Bool → Bool
bool_beq true b = b
bool_beq false b = not b

pub key_beq : Key → Key → Bool
unfolding bool_beq
key_beq (v, s, e) (w, t, f) = v == w && (s == t && bool_beq e f)

pub key_beq_iff : (k j : Key) → (key_beq k j ≡ true) ↔ (k ≡ j)
unfolding key_beq bool_beq
key_beq_iff (v, s, true) (w, t, true) = ground arith
key_beq_iff (v, s, true) (w, t, false) = ground arith
key_beq_iff (v, s, false) (w, t, true) = ground arith
key_beq_iff (v, s, false) (w, t, false) = ground arith

instance abbrev pub key_eq : Eq Key
key_eq = record { beq = key_beq; beq_iff = key_beq_iff }

module _ {ℓ} {A : Type ℓ} ⦃e : Eq A⦄ where
  -- `Vec::contains`
  unfoldable pub contains : A → List A → Bool
  contains a [] = false
  contains a (b ∷ bs) = e.beq b a || contains a bs

  -- `retain(|value| value != a)`
  unfoldable pub retain_ne : A → List A → List A
  retain_ne a [] = []
  retain_ne a (b ∷ bs) = if e.beq b a then retain_ne a bs else b ∷ retain_ne a bs

  -- The body that both functions share.
  unfoldable pub track : List A → A → Bool → List A
  unfolding contains retain_ne
  track pressed a true = if contains a pressed then pressed else pressed ++ (a ∷ [])
  track pressed a false = retain_ne a pressed

unfoldable pub track_button_press : List String → String → Bool → List String
unfolding track
track_button_press pressed button down = track pressed button down

unfoldable pub track_key_press : List Key → ℕ → ℕ → Bool → Bool → List Key
unfolding track
track_key_press pressed vk scan_code extended down = track pressed (vk, scan_code, extended) down

-- The events of one session, in order: what was pressed (true) or released (false).
module _ {ℓ} {A : Type ℓ} ⦃e : Eq A⦄ where
  unfoldable pub track_all : List A → List (A × Bool) → List A
  unfolding track
  track_all pressed [] = pressed
  track_all pressed ((a, down) ∷ es) = track_all (track pressed a down) es

  -- Whether the last event of `a` was a press, given what was the case before.
  unfoldable pub is_down : A → Bool → List (A × Bool) → Bool
  is_down a before [] = before
  is_down a before ((b, down) ∷ es) = is_down a (if e.beq b a then down else before) es

  -- No entry occurs twice.
  abbrev pub NoDup : List A → Type 0
  NoDup [] = Unit
  NoDup (b ∷ bs) = (contains b bs ≡ false) × NoDup bs

  contains-append :
      (a b : A) (bs : List A) → contains a (bs ++ (b ∷ [])) ≡ (e.beq b a || contains a bs)
  unfolding contains
  contains-append a b [] = refl
  contains-append a b (c ∷ bs) =
      rw (contains-append a b bs) (swap (e.beq c a) (e.beq b a) (contains a bs))
    where
      swap : (x y z : Bool) → (x || (y || z)) ≡ (y || (x || z))
      swap true true z = refl
      swap true false z = refl
      swap false y z = refl

  contains-retain_ne :
      (a b : A) (bs : List A)
      → contains a (retain_ne b bs) ≡ (if e.beq b a then false else contains a bs)
  unfolding contains retain_ne
  contains-retain_ne a b [] = ground arith
  contains-retain_ne a b (c ∷ bs) =
      ground (arith, contains-retain_ne a b bs, e.beq_iff c b, e.beq_iff b a, e.beq_iff c a)

  contains_same : (a b : A) (bs : List A) → e.beq b a ≡ true → contains b bs ≡ contains a bs
  contains_same a b bs h = rw ((e.beq_iff b a).0 h)

  pub contains-track :
      (a b : A) (pressed : List A) (down : Bool)
      → contains a (track pressed b down) ≡ (if e.beq b a then down else contains a pressed)
  unfolding track
  contains-track a b pressed true =
      ground (arith, contains-append a b pressed, contains_same a b pressed)
  contains-track a b pressed false = contains-retain_ne a b pressed

  pub contains-track_all :
      (a : A) (pressed : List A) (es : List (A × Bool))
      → contains a (track_all pressed es) ≡ is_down a (contains a pressed) es
  unfolding track_all is_down
  contains-track_all a pressed [] = refl
  contains-track_all a pressed ((b, down) ∷ es) =
      contains-track_all a (track pressed b down) es
      ∙ ap (λ d. is_down a d es) (contains-track a b pressed down)

  NoDup-append : (b : A) (bs : List A) → NoDup bs → contains b bs ≡ false → NoDup (bs ++ (b ∷ []))
  unfolding contains
  NoDup-append b [] h out = (refl, tt)
  NoDup-append b (c ∷ bs) (fresh, h) out = (
    ground (arith, contains-append c b bs, e.beq_iff b c, e.beq_iff c b),
    NoDup-append b bs h (ground arith),
  )

  NoDup-retain_ne : (b : A) (bs : List A) → NoDup bs → NoDup (retain_ne b bs)
  unfolding retain_ne
  NoDup-retain_ne b [] h = tt
  NoDup-retain_ne b (c ∷ bs) (fresh, h) = elim (Bool-cases (e.beq c b)) [
    | inl same ↦ rw same (NoDup-retain_ne b bs h)
    | inr other ↦ rw other (ground (arith, contains-retain_ne c b bs), NoDup-retain_ne b bs h)
  ]

  pub NoDup-track :
      (pressed : List A) (b : A) (down : Bool) → NoDup pressed → NoDup (track pressed b down)
  unfolding track
  NoDup-track pressed b true h = elim (Bool-cases (contains b pressed)) [
    | inl there ↦ rw there h
    | inr absent ↦ rw absent (NoDup-append b pressed h absent)
  ]
  NoDup-track pressed b false h = NoDup-retain_ne b pressed h

  pub NoDup-track_all :
      (pressed : List A) (es : List (A × Bool)) → NoDup pressed → NoDup (track_all pressed es)
  unfolding track_all
  NoDup-track_all pressed [] h = h
  NoDup-track_all pressed ((b, down) ∷ es) h =
      NoDup-track_all (track pressed b down) es (NoDup-track pressed b down h)

  pub is_down-append :
      (a : A) (b : Bool) (xs ys : List (A × Bool))
      → is_down a b (xs ++ ys) ≡ is_down a (is_down a b xs) ys
  unfolding is_down
  is_down-append a b [] ys = refl
  is_down-append a b ((c, down) ∷ xs) ys = is_down-append a (if e.beq c a then down else b) xs ys

  pub is_down_one :
      (a c : A) (b down : Bool) → is_down a b ((c, down) ∷ []) ≡ (if e.beq c a then down else b)
  unfolding is_down
  is_down_one a c b down = refl

  -- After a release of everything in the list, only what was down and is not in the list is down.
  pub is_down-release :
      (a : A) (b : Bool) (held : List A)
      → is_down a b (map (λ c. (c, false)) held) ≡ (if contains a held then false else b)
  unfolding is_down contains
  is_down-release a b [] = refl
  is_down-release a b (c ∷ held) =
      rw (is_down-release a (if e.beq c a then false else b) held)
        (merge (e.beq c a) (contains a held) b)
    where
      merge :
          (x y b : Bool)
          → (if y then false else if x then false else b) ≡ (if x || y then false else b)
      merge true true b = refl
      merge true false b = refl
      merge false y b = refl

  -- Over the events of a session, from nothing held: an entry is recorded exactly when its last event
  -- was a press, and no entry is recorded twice.
  pub track_all_lem :
      (a : A) (es : List (A × Bool))
      → (contains a (track_all [] es) ≡ is_down a false es) × NoDup (track_all [] es)
  track_all_lem a es =
      (contains-track_all a [] es ∙ ap (λ b. is_down a b es) nothing, NoDup-track_all [] es tt)
    where
      nothing : contains a [] ≡ false
      nothing = unfold contains in refl
