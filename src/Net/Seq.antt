-- ===== src/Net/Seq.antt =====
-- Sequence numbers of motion datagrams, crates/tailkvm-net/src/motion.rs: the sender's source, the
-- receiver's gate, and the peer check.
use tail_kvm.Base.{
  ℕ, ◌+◌, ◌%◌, ◌^◌, ◌≡◌, refl, sym, Bool-cases, inl, inr, Bool, true, false, ◌&&◌, Option, none,
  some, List, [], ◌∷◌, arith, ltb, leb, ◌==◌, if◌then◌else◌,
}

pub record SeqSource : Type 0 where
  pub next : ℕ

unfoldable pub source : SeqSource
source = record { next = 0 }

-- `next_seq`, with `wrapping_add` on u64.
unfoldable pub next_seq : SeqSource → SeqSource × ℕ
next_seq s = (record { next = (s.next + 1) % 2 ^ 64 }, s.next)

pub record SeqGate : Type 0 where
  pub last : Option ℕ

unfoldable pub gate : SeqGate
gate = record { last = none }

unfoldable pub accept_after : Option ℕ → ℕ → SeqGate × Bool
accept_after (some last) seq =
    if leb seq last
    then (record { last = some last }, false)
    else (record { last = some seq }, true)
accept_after none seq = (record { last = some seq }, true)

-- `accept`: whether the datagram is taken, with the new high-water mark.
unfoldable pub accept : SeqGate → ℕ → SeqGate × Bool
unfolding accept_after
accept g seq = accept_after g.last seq

pub data IpAddr : Type 0 where
  v4 v6 : ℕ → IpAddr

pub record SocketAddr : Type 0 where
  pub ip : IpAddr
  pub port : ℕ

abbrev ip_eq : IpAddr → IpAddr → Bool
ip_eq (v4 a) (v4 b) = a == b
ip_eq (v6 a) (v6 b) = a == b
ip_eq _ _ = false

unfoldable pub is_expected_peer : SocketAddr → IpAddr → Bool
is_expected_peer from expected_ip = ip_eq from.ip expected_ip

-- The answers of the gate to a sequence of arrivals.
unfoldable pub accepts : SeqGate → List ℕ → List Bool
accepts g [] = []
accepts g (s ∷ ss) = let (g', b) = accept g s in b ∷ accepts g' ss

-- The specification looks at the whole history: a datagram is taken exactly when its number exceeds
-- every number that has arrived before.
abbrev pub exceeds_all : ℕ → List ℕ → Bool
exceeds_all s [] = true
exceeds_all s (t ∷ ts) = ltb t s && exceeds_all s ts

pub newest_only : List ℕ → List ℕ → List Bool
newest_only seen [] = []
newest_only seen (s ∷ ss) = exceeds_all s seen ∷ newest_only (s ∷ seen) ss

-- `last` is the largest number seen so far.
abbrev IsLargest : Option ℕ → List ℕ → Type 0
IsLargest o seen = (s : ℕ) → exceeds_all s seen ≡ (elim o [ none ↦ true | some m ↦ ltb m s ])

accept_step :
    (o : Option ℕ) (seen : List ℕ) (s : ℕ)
    → IsLargest o seen
    → let (g, b) = accept_after o s in (b ≡ exceeds_all s seen) × IsLargest g.last (s ∷ seen)
unfolding accept_after
accept_step none seen s h = (sym (h s), λ t. rw (h t) (and_true (ltb s t)))
  where
    and_true : (b : Bool) → (b && true) ≡ b
    and_true true = refl
    and_true false = refl
accept_step (some m) seen s h = elim (Bool-cases (leb s m)) [
  | inl old ↦ rw old (ground (arith, h s), λ t. rw (h t) (ground arith))
  | inr new ↦ rw new (ground (arith, h s), λ t. rw (h t) (ground arith))
]

accepts-newest_only :
    (g : SeqGate) (seen ss : List ℕ) → IsLargest g.last seen → accepts g ss ≡ newest_only seen ss
unfolding accepts newest_only accept
accepts-newest_only g seen [] h = refl
accepts-newest_only g seen (s ∷ ss) h =
    let (answer, next) = accept_step g.last seen s h in
    cc (answer, accepts-newest_only (accept_after g.last s).0 (s ∷ seen) ss next)

-- From a new gate, a datagram is taken exactly when its number exceeds every number that arrived
-- before it, taken or not.
pub accepts-gate : (ss : List ℕ) → accepts gate ss ≡ newest_only [] ss
unfolding gate
accepts-gate ss = accepts-newest_only gate [] ss (λ s. refl)
