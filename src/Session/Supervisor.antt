-- ===== src/Session/Supervisor.antt =====
-- `spawn_controller_supervisor` of apps/tailkvm-ui/src-tauri/src/session/controller.rs, which keeps a
-- controller session running.
use tail_kvm.Base.{
  ℕ, zero, suc, ◌≡◌, refl, ap, ◌∙◌, Bool, true, false, Bool-cases, inl, inr, List, [], ◌∷◌, ◌++◌,
  map, if◌then◌else◌,
}
use tail_kvm.Session.Backoff.{
  next_backoff_secs, current_backoff_secs, backoff_start_secs, delays, doubled_delays,
  delays-doubled_delays,
}

-- What one round of the loop finds: `should_run && is_current()` before the session, how long the
-- session lasted, the same test after it, and the answers of the test before each second of waiting.
pub record Round : Type 0 where
  pub on_before : Bool
  pub session_secs : ℕ
  pub on_after : Bool
  pub on_waiting : List Bool

-- What the supervisor does, in order: the sender slot is filled, a session runs, the slot is emptied,
-- the delay is reported, a second is slept, and the end is reported.
pub data Action : Type 0 where
  fill_slot run_session empty_slot sleep_second report_end : Action
  report_reconnect : (session_secs sleep_secs : ℕ) → Action

-- `while waited < sleep_secs && should_run && is_current()`
unfoldable pub wait : ℕ → List Bool → List Action
wait zero on = []
wait (suc n) [] = []
wait (suc n) (false ∷ on) = []
wait (suc n) (true ∷ on) = sleep_second ∷ wait n on

-- The outer loop; a list of rounds that runs out stands for a task that is still running.
unfoldable pub supervise : ℕ → List Round → List Action
unfolding wait next_backoff_secs current_backoff_secs
supervise backoff_secs [] = []
supervise backoff_secs (r ∷ rs) =
    let sleep_secs = current_backoff_secs backoff_secs r.session_secs in
    let rest = supervise (next_backoff_secs backoff_secs r.session_secs) rs in
    let after =
      if r.on_after
      then report_reconnect r.session_secs sleep_secs ∷ (wait sleep_secs r.on_waiting ++ rest)
      else report_end ∷ [] in
    if r.on_before then fill_slot ∷ run_session ∷ empty_slot ∷ after else report_end ∷ []

-- The reported delays, and how many seconds were slept after each.
pub reported : List Action → List ℕ
reported [] = []
reported (report_reconnect session_secs sleep_secs ∷ acts) = sleep_secs ∷ reported acts
reported (_ ∷ acts) = reported acts

-- The supervisor is wanted and current all the time.
abbrev pub AllOn : List Round → Type 0
AllOn [] = Unit
AllOn (r ∷ rs) = (r.on_before ≡ true) × (r.on_after ≡ true) × AllOn rs

reported-append : (acts bs : List Action) → reported (acts ++ bs) ≡ reported acts ++ reported bs
unfolding reported
reported-append [] bs = refl
reported-append (report_reconnect s d ∷ acts) bs = ap (λ r. d ∷ r) (reported-append acts bs)
reported-append (_ ∷ acts) bs = reported-append acts bs

reported-wait : (n : ℕ) (on : List Bool) → reported (wait n on) ≡ []
unfolding reported wait
reported-wait zero on = refl
reported-wait (suc n) [] = refl
reported-wait (suc n) (false ∷ on) = refl
reported-wait (suc n) (true ∷ on) = reported-wait n on

reported-supervise :
    (backoff_secs : ℕ) (rs : List Round)
    → AllOn rs
    → reported (supervise backoff_secs rs) ≡ delays backoff_secs (map (λ r. r.session_secs) rs)
unfolding reported supervise delays
reported-supervise backoff_secs [] on = refl
reported-supervise backoff_secs (r ∷ rs) (before, after, on) =
    let sleep_secs : ℕ = current_backoff_secs backoff_secs r.session_secs in
    let rest : List Action = supervise (next_backoff_secs backoff_secs r.session_secs) rs in
    rw (before, after)
      (ap (λ d. sleep_secs ∷ d)
        (reported-append (wait sleep_secs r.on_waiting) rest
          ∙ ap (λ d. d ++ reported rest) (reported-wait sleep_secs r.on_waiting)
          ∙ reported-supervise (next_backoff_secs backoff_secs r.session_secs) rs on))

-- While it is wanted and current, the supervisor reports before each reconnect a delay of 1 s after a
-- session of 15 s or more, and otherwise of 2 ^ k s, at most 10 s, where `k` counts the shorter
-- sessions since the start, or those after the last long one and that one itself.
pub supervise-doubled_delays :
    (rs : List Round)
    → AllOn rs
    → reported (supervise backoff_start_secs rs) ≡ doubled_delays 0 (map (λ r. r.session_secs) rs)
supervise-doubled_delays rs on =
    reported-supervise backoff_start_secs rs on
    ∙ delays-doubled_delays (map (λ r. r.session_secs) rs)

-- The slot holds a sender.
pub slot_after : Bool → List Action → Bool
slot_after full [] = full
slot_after full (fill_slot ∷ acts) = slot_after true acts
slot_after full (empty_slot ∷ acts) = slot_after false acts
slot_after full (_ ∷ acts) = slot_after full acts

slot_after-wait :
    (n : ℕ) (on : List Bool) (full : Bool) (acts : List Action)
    → slot_after full (wait n on ++ acts) ≡ slot_after full acts
unfolding slot_after wait
slot_after-wait zero on full acts = refl
slot_after-wait (suc n) [] full acts = refl
slot_after-wait (suc n) (false ∷ on) full acts = refl
slot_after-wait (suc n) (true ∷ on) full acts = slot_after-wait n on full acts

-- After any number of rounds, however they go, the sender slot that was empty before is empty again.
pub slot_after-supervise :
    (backoff_secs : ℕ) (rs : List Round) → slot_after false (supervise backoff_secs rs) ≡ false
unfolding slot_after supervise
slot_after-supervise backoff_secs [] = refl
slot_after-supervise backoff_secs (r ∷ rs) = elim (Bool-cases r.on_before) [
  | inr off ↦ rw off
  | inl on ↦ elim (Bool-cases r.on_after) [
    | inr off ↦ rw (on, off)
    | inl still ↦
        rw (on, still)
          (slot_after-wait (current_backoff_secs backoff_secs r.session_secs) r.on_waiting false
              (supervise (next_backoff_secs backoff_secs r.session_secs) rs)
            ∙ slot_after-supervise (next_backoff_secs backoff_secs r.session_secs) rs)
  ]
]
