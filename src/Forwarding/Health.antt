-- ===== src/Forwarding/Health.antt =====
-- The hook health check that both forwarding loops of apps/tailkvm-ui/src-tauri/src/forwarding.rs run: a
-- marker is injected every two seconds, and a hook that misses two of them is installed anew.
use tail_kvm.Base.{
  ℕ, ◌+◌, ◌%◌, ◌≤◌, ◌≡◌, Bool, true, false, not, ◌&&◌, List, [], ◌∷◌, arith, ltb, leb, ◌==◌,
  if◌then◌else◌,
}
use tail_kvm.Forwarding.{Instant, has_elapsed}

abbrev pub marker_injection_warn_after : ℕ
marker_injection_warn_after = 5

-- The local variables of the check. The counters are u8.
pub record Health : Type 0 where
  pub last_marker : Instant
  pub marker_baseline : ℕ
  pub marker_pending : Bool
  pub missed_markers : ℕ
  pub injection_failures : ℕ
  pub injection_warned : Bool

-- What a turn finds: the clock at the test and at the end of the check, the count of markers that the hook
-- has seen, whether it can be installed anew and what the count is then, and whether the next marker is
-- injected.
pub record Probe : Type 0 where
  pub now : Instant
  pub seen : ℕ
  pub reinstall_ok : Bool
  pub seen_anew : ℕ
  pub inject_ok : Bool
  pub now_done : Instant

-- How a check ends: it was not due; it was made, with or without a new hook and a warning; or the hook is
-- lost and the loop is left.
pub data Checked : Type 0 where
  not_due lost : Checked
  checked : (reinstalled warned : Bool) → Checked

-- The start of a loop.
abbrev pub fresh : Instant → ℕ → Health
fresh now seen = record {
  last_marker = now;
  marker_baseline = seen;
  marker_pending = false;
  missed_markers = 0;
  injection_failures = 0;
  injection_warned = false;
}

-- `if marker_pending { .. }`
unfoldable pub count_missed : Probe → Health → Health
count_missed p h =
    if h.marker_pending
    then record h {
      missed_markers = if p.seen == h.marker_baseline then (h.missed_markers + 1) % 256 else 0;
      marker_baseline = p.seen;
    }
    else h

-- The next marker, and whether the warning is due.
unfoldable pub inject_marker : Probe → Health → Health × Bool
inject_marker p h =
    let failures = if ltb h.injection_failures 255 then h.injection_failures + 1 else 255 in
    let warn = leb marker_injection_warn_after failures && not h.injection_warned in
    if p.inject_ok
    then (
      record h {
        marker_pending = true;
        injection_failures = 0;
        injection_warned = false;
        last_marker = p.now_done;
      },
      false,
    )
    else (
      record h {
        marker_pending = false;
        injection_failures = failures;
        injection_warned = if warn then true else h.injection_warned;
        last_marker = p.now_done;
      },
      warn,
    )

-- A check that is due, once the missed markers are counted.
unfoldable pub after_count : Probe → Health → Health × Checked
unfolding inject_marker
after_count p h =
    let renewed : Health = record h { missed_markers = 0; marker_baseline = p.seen_anew } in
    let (same, warn) = inject_marker p h in
    let (anew, warn_anew) = inject_marker p renewed in
    if leb 2 h.missed_markers
    then (if p.reinstall_ok
        then (anew, checked true warn_anew)
        else (record h { missed_markers = 0 }, lost))
    else (same, checked false warn)

unfoldable pub check_health : Probe → Health → Health × Checked
unfolding count_missed after_count
check_health p h =
    if has_elapsed h.last_marker 2000 p.now then after_count p (count_missed p h) else (h, not_due)

-- Whether a check installs the hook anew or gives it up.
abbrev pub is_noticed : Checked → Bool
is_noticed lost = true
is_noticed (checked reinstalled warned) = reinstalled
is_noticed not_due = false

-- A sequence of due checks, and whether one of them notices the loss of the hook.
unfoldable pub is_noticed_in : List Probe → Health → Bool
unfolding after_count count_missed
is_noticed_in [] h = false
is_noticed_in (p ∷ ps) h =
    let (h', c) = after_count p (count_missed p h) in
    let later = is_noticed_in ps h' in if is_noticed c then true else later

-- In these checks the hook sees no marker, and each marker is injected.
abbrev pub AreUnseen : ℕ → List Probe → Type 0
AreUnseen seen [] = Unit {0}
AreUnseen seen (p ∷ ps) = (p.seen ≡ seen) × (p.inject_ok ≡ true) × AreUnseen seen ps

-- The counter of missed markers stays below 2 between the checks.
pub missed_bound :
    (p : Probe) (h : Health) → h.missed_markers ≤ 1 → (check_health p h).0.missed_markers ≤ 1
unfolding check_health
missed_bound p h k = ground arith

-- Whatever the state of the check, of four due checks in a row whose markers are injected and none of
-- which the hook sees, one installs the hook anew or gives it up.
pub lost_hook-is_noticed_in :
    (a b c d : Probe) (h : Health)
    → h.missed_markers ≤ 1
    → AreUnseen a.seen (a ∷ b ∷ c ∷ d ∷ [])
    → is_noticed_in (a ∷ b ∷ c ∷ d ∷ []) h ≡ true
unfolding is_noticed_in
lost_hook-is_noticed_in a b c d h k u = ground arith
