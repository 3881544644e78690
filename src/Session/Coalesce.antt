-- ===== src/Session/Coalesce.antt =====
-- `push_coalesced` of apps/tailkvm-ui/src-tauri/src/session/wire.rs: the batches of the writer loop.
use tail_kvm.Base.{
  ◌≡◌, refl, ap, Bool, true, false, ◌&&◌, List, [], ◌∷◌, ◌++◌, if◌then◌else◌, push-append, inl, inr,
  Bool-cases,
}
use tail_kvm.Net.Protocol.{WireMessage, mouse_set_position}

-- `matches!(m, WireMessage::MouseSetPosition { .. })`
unfoldable pub is_position : WireMessage → Bool
is_position (mouse_set_position x y) = true
is_position _ = false

-- `matches!(batch.last(), Some(WireMessage::MouseSetPosition { .. }))`
unfoldable pub ends_in_position : List WireMessage → Bool
unfolding is_position
ends_in_position [] = false
ends_in_position (m ∷ []) = is_position m
ends_in_position (m ∷ n ∷ ms) = ends_in_position (n ∷ ms)

-- `if let Some(slot) = batch.last_mut() { *slot = next; }`
unfoldable pub replace_last : List WireMessage → WireMessage → List WireMessage
replace_last [] next = []
replace_last (m ∷ []) next = next ∷ []
replace_last (m ∷ n ∷ ms) next = m ∷ replace_last (n ∷ ms) next

unfoldable pub push_coalesced : List WireMessage → WireMessage → List WireMessage
unfolding is_position ends_in_position replace_last
push_coalesced batch next =
    if is_position next && ends_in_position batch
    then replace_last batch next
    else batch ++ (next ∷ [])

-- The batch that the writer loop builds from the messages of its queue.
unfoldable pub push_all : List WireMessage → List WireMessage → List WireMessage
push_all batch [] = batch
push_all batch (m ∷ ms) = push_all (push_coalesced batch m) ms

-- The specification: of each run of absolute positions the last one stays, and every other message
-- stays where it is.
pub last_of_runs : List WireMessage → List WireMessage
last_of_runs [] = []
last_of_runs (m ∷ []) = m ∷ []
last_of_runs (m ∷ n ∷ ms) =
    let rest = last_of_runs (n ∷ ms) in if is_position m && is_position n then rest else m ∷ rest

ends_in_position-append :
    (batch : List WireMessage) (m : WireMessage)
    → ends_in_position (batch ++ (m ∷ [])) ≡ is_position m
unfolding ends_in_position
ends_in_position-append [] m = refl
ends_in_position-append (a ∷ []) m = refl
ends_in_position-append (a ∷ b ∷ batch) m = ends_in_position-append (b ∷ batch) m

replace_last-append :
    (batch : List WireMessage) (m n : WireMessage)
    → replace_last (batch ++ (m ∷ [])) n ≡ batch ++ (n ∷ [])
unfolding replace_last
replace_last-append [] m n = refl
replace_last-append (a ∷ []) m n = refl
replace_last-append (a ∷ b ∷ batch) m n = ap (λ ms. a ∷ ms) (replace_last-append (b ∷ batch) m n)

-- A message after a batch that ends in `m`.
push_after :
    (batch : List WireMessage) (m n : WireMessage)
    → push_coalesced (batch ++ (m ∷ [])) n ≡ (
        if is_position n && is_position m
        then batch ++ (n ∷ [])
        else (batch ++ (m ∷ [])) ++ (n ∷ []))
unfolding push_coalesced
push_after batch m n = rw (ends_in_position-append batch m, replace_last-append batch m n)

and_comm : (a b : Bool) → (a && b) ≡ (b && a)
and_comm true true = refl
and_comm true false = refl
and_comm false true = refl
and_comm false false = refl

pub push_all_after :
    (batch : List WireMessage) (m : WireMessage) (ms : List WireMessage)
    → push_all (batch ++ (m ∷ [])) ms ≡ batch ++ last_of_runs (m ∷ ms)
unfolding push_all last_of_runs
push_all_after batch m [] = refl
push_all_after batch m (n ∷ ms) = elim (Bool-cases (is_position m && is_position n)) [
  | inl both ↦
      rw (push_after batch m n, and_comm (is_position n) (is_position m), both)
        (push_all_after batch n ms)
  | inr apart ↦
      rw
        (
          push_after batch m n,
          and_comm (is_position n) (is_position m),
          apart,
          push_all_after (batch ++ (m ∷ [])) n ms,
        )
        (push-append batch m (last_of_runs (n ∷ ms)))
]

-- The batch that the queue's messages build up one by one is the sequence with only the last of each
-- run of absolute positions: no other message is dropped, merged or moved.
pub push_all-last_of_runs : (ms : List WireMessage) → push_all [] ms ≡ last_of_runs ms
unfolding push_all last_of_runs push_coalesced is_position ends_in_position
push_all-last_of_runs [] = refl
push_all-last_of_runs (m ∷ ms) = rw (push_first m) (push_all_after [] m ms)
  where
    push_first : (m : WireMessage) → push_coalesced [] m ≡ m ∷ []
    push_first m = rw (and_comm (is_position m) false)
