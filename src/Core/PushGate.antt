-- ===== src/Core/PushGate.antt =====
-- The physical-push freshness gate, crates/tailkvm-core/src/motion.rs.
use tail_kvm.Base.{
  ℕ, ◌-◌, ◌/◌, ◌≡◌, Bool, false, Option, none, some, List, [], ◌∷◌, leb, length, get_or, set,
  if◌then◌else◌,
}
use tail_kvm.Base.Int.{ℤ, pos, ltb_ℤ}

abbrev pub push_fresh_ms : ℕ
push_fresh_ms = 250

pub data PushDir : Type 0 where
  right left top bottom : PushDir

-- `dir as usize`
abbrev pub index : PushDir → ℕ
index PushDir.right = 0
index PushDir.left = 1
index PushDir.top = 2
index PushDir.bottom = 3

-- An `Instant` is its number of nanoseconds.
abbrev pub Instant : Type 0
Instant = ℕ

-- `last: [Option<Instant>; 4]`
pub record PushGate : Type 0 where
  pub last : List (Option Instant)

unfoldable pub new : PushGate
new = record { last = none ∷ none ∷ none ∷ none ∷ [] }

-- `if moved { self.last[dir as usize] = Some(now) }`
abbrev mark : Bool → PushDir → Instant → List (Option Instant) → List (Option Instant)
mark moved dir now last = if moved then set last (index dir) (some now) else last

unfoldable pub record_delta : PushGate → ℤ → ℤ → Instant → PushGate
record_delta g dx dy now =
    let a = mark (ltb_ℤ (pos 0) dx) PushDir.right now g.last in
    let b = mark (ltb_ℤ dx (pos 0)) PushDir.left now a in
    let c = mark (ltb_ℤ dy (pos 0)) PushDir.top now b in
    record { last = mark (ltb_ℤ (pos 0) dy) PushDir.bottom now c }

-- `now.saturating_duration_since(t).as_millis() <= PUSH_FRESH_MS`
abbrev pub is_recent : Option Instant → Instant → Bool
is_recent none now = false
is_recent (some t) now = leb ((now - t) / 1000000) push_fresh_ms

unfoldable pub is_fresh : PushGate → PushDir → Instant → Bool
is_fresh g dir now = is_recent (get_or g.last (index dir) none) now

-- Whether a delta pushes in a direction.
abbrev pub pushes : PushDir → ℤ → ℤ → Bool
pushes PushDir.right dx dy = ltb_ℤ (pos 0) dx
pushes PushDir.left dx dy = ltb_ℤ dx (pos 0)
pushes PushDir.top dx dy = ltb_ℤ dy (pos 0)
pushes PushDir.bottom dx dy = ltb_ℤ (pos 0) dy

-- The gate has its four slots.
abbrev pub IsGate : PushGate → Type 0
IsGate g = length g.last ≡ 4

-- The slot of a direction.
abbrev slot : PushGate → PushDir → Option Instant
slot g dir = get_or g.last (index dir) none

-- The raw deltas of a history, oldest first, fed to the gate.
unfoldable pub record_deltas : PushGate → List (ℤ × ℤ × Instant) → PushGate
record_deltas g [] = g
record_deltas g ((dx, dy, t) ∷ es) = record_deltas (record_delta g dx dy t) es

-- When a direction was last pushed in a history, given when it was pushed before.
pub last_push : PushDir → Option Instant → List (ℤ × ℤ × Instant) → Option Instant
last_push dir before [] = before
last_push dir before ((dx, dy, t) ∷ es) =
    last_push dir (if pushes dir dx dy then some t else before) es
