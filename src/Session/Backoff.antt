-- ===== src/Session/Backoff.antt =====
-- Reconnect delays, apps/tailkvm-ui/src-tauri/src/session/controller.rs.
use native.Mathlib.Nat.{pow-suc}
use tail_kvm.Base.{ℕ, suc, ◌*◌, ◌^◌, ◌≡◌, refl, List, [], ◌∷◌, arith, leb, if◌then◌else◌}

abbrev pub backoff_start_secs : ℕ
backoff_start_secs = 1

abbrev pub backoff_max_secs : ℕ
backoff_max_secs = 10

abbrev pub healthy_session_secs : ℕ
healthy_session_secs = 15

unfoldable pub next_backoff_secs : ℕ → ℕ → ℕ
next_backoff_secs previous_secs session_secs =
    let base =
      if leb healthy_session_secs session_secs then backoff_start_secs else previous_secs in
    if leb (base * 2) backoff_max_secs then base * 2 else backoff_max_secs

unfoldable pub current_backoff_secs : ℕ → ℕ → ℕ
current_backoff_secs previous_secs session_secs =
    if leb healthy_session_secs session_secs then backoff_start_secs else previous_secs

-- The delays that the supervisor sleeps after sessions of the given lengths, from a given previous one.
unfoldable pub delays : ℕ → List ℕ → List ℕ
unfolding next_backoff_secs current_backoff_secs
delays previous_secs [] = []
delays previous_secs (session_secs ∷ ss) =
    current_backoff_secs previous_secs session_secs
    ∷ delays (next_backoff_secs previous_secs session_secs) ss

-- min (2 ^ k) 10
pub doubled : ℕ → ℕ
doubled k = if leb (2 ^ k) 10 then 2 ^ k else 10

-- The specification counts the short sessions since the last healthy one.
pub doubled_delays : ℕ → List ℕ → List ℕ
doubled_delays k [] = []
doubled_delays k (session_secs ∷ ss) =
    if leb 15 session_secs then 1 ∷ doubled_delays 1 ss else doubled k ∷ doubled_delays (suc k) ss

doubled_next :
    (k session_secs : ℕ)
    → next_backoff_secs (doubled k) session_secs
      ≡ (if leb 15 session_secs then doubled 1 else doubled (suc k))
unfolding next_backoff_secs doubled
doubled_next k session_secs = ground (arith, pow-suc 2 k)

delays_from : (k : ℕ) (ss : List ℕ) → delays (doubled k) ss ≡ doubled_delays k ss
unfolding delays doubled_delays
delays_from k [] = refl
delays_from k (session_secs ∷ ss) =
    ground (arith, doubled_next k session_secs, delays_from 1 ss, delays_from (suc k) ss)

-- The delay before a reconnect is 1 s after a session of 15 s or more, and otherwise 2 ^ k s, at most
-- 10 s, where `k` counts the shorter sessions since the start, or those after the last such session
-- and that session itself.
pub delays-doubled_delays : (ss : List ℕ) → delays backoff_start_secs ss ≡ doubled_delays 0 ss
unfolding doubled
delays-doubled_delays ss = delays_from 0 ss
