-- ===== src/Forwarding/KeyboardKeep.antt =====
-- What a turn of the keyboard forwarding thread keeps (apps/tailkvm-ui/src-tauri/src/forwarding.rs).
use Prim.Native.String.{String}
use text.Mathlib.Text.{◌==◌ as str_eq}
use mathlib.Core.Path.{subst}
use tail_kvm.Base.{
  ℕ, ◌≡◌, refl, sym, ◌∙◌, inl, inr, Bool, true, false, ◌&&◌, ◌||◌, Bool-cases, some, List, [], ◌∷◌,
}
use tail_kvm.Base.Int.{ℤ}
use tail_kvm.Net.Protocol.{keyboard_text}
use tail_kvm.Ime.Mode.{ImeModeState, off, armed, composing, suspended, is_on, observe_composition}
use tail_kvm.Session.Held.{key_eq}
use tail_kvm.Forwarding.{active_target_present, watch_target, is_stale, has_elapsed}
use tail_kvm.Forwarding.Health.{Health, Checked, not_due, checked, lost, check_health}
use tail_kvm.Forwarding.Anchor.{resolve_ime_anchor_total}
use tail_kvm.Forwarding.Keyboard.{
  key, failsafe, Received, event, timeout, disconnected, World, Keyboard, Outcome, go_on, leave,
  panicked, push, release_pressed_keys, is_armed, handle_failsafe,
}
use tail_kvm.Forwarding.KeyboardTurn.{
  forward_commits, same_mode, opens, observe, is_far, placed, reposition, receive, checked_hook,
  after_reposition, turn,
}
use tail_kvm.Forwarding.KeyboardKeys.{
  Inv, Sound, if-Sound, text-TracksKeys, release-TracksKeys, handle_key-Sound,
}

module _ (w : World) where
  handle_failsafe-Sound : (k : Keyboard) → Inv k → Sound k.hook.generation (handle_failsafe k)
  unfolding handle_failsafe
  handle_failsafe-Sound k h = (h, refl)

  receive-Sound : (k : Keyboard) (r : Received) → Inv k → Sound k.hook.generation (receive w k r)
  receive-Sound k timeout h = (h, refl)
  receive-Sound k disconnected h = (h, refl)
  receive-Sound k (event failsafe) h = handle_failsafe-Sound k h
  receive-Sound k (event (key vk scan_code down extended)) h =
      handle_key-Sound w k vk scan_code down extended h

  checked_hook-Sound :
      (k : Keyboard) (r : Health × Checked) → Inv k → Sound k.hook.generation (checked_hook w k r)
  checked_hook-Sound k (h, not_due) i = receive-Sound (record k { health = h }) w.received i
  checked_hook-Sound k (h, lost) i = (i, refl)
  checked_hook-Sound k (h, checked true warned) i = receive-Sound _ w.received i
  checked_hook-Sound k (h, checked false warned) i = receive-Sound _ w.received i

  forward_commits-Inv :
      (texts : List String) (k : Keyboard)
      → Inv k
      → Inv (forward_commits texts k)
        × ((forward_commits texts k).hook.generation ≡ k.hook.generation)
  unfolding forward_commits
  forward_commits-Inv [] k h = (h, refl)
  forward_commits-Inv (text ∷ texts) k h = elim (Bool-cases (str_eq text "")) [
    | inl empty ↦ rw (empty, forward_commits) (forward_commits-Inv texts k h)
    | inr full ↦
        rw (full, forward_commits)
          (forward_commits-Inv texts (push (keyboard_text text) k)
            (text-TracksKeys k.pressed_keys k.sends text h.0, h.1, h.2, h.3))
  ]

  is_on-observe : (m : ImeModeState) (b : Bool) → is_on (observe_composition m b) ≡ is_on m
  unfolding observe_composition is_on
  is_on-observe off b = refl
  is_on-observe suspended b = refl
  is_on-observe armed true = refl
  is_on-observe armed false = refl
  is_on-observe composing true = refl
  is_on-observe composing false = refl

  observe-Inv :
      (k : Keyboard)
      → Inv k
      → Inv (observe w k) × ((observe w k).hook.generation ≡ k.hook.generation)
  unfolding observe release_pressed_keys
  observe-Inv k (t, mode, pass, older) =
      let next = observe_composition k.ime_mode w.is_composing in
      let on = is_on-observe k.ime_mode w.is_composing ∙ mode in
      elim (Bool-cases (same_mode next k.ime_mode)) [
        | inl same ↦ rw (same, observe) ((t, mode, pass, older), refl)
        | inr other ↦ elim (Bool-cases (opens next)) [
          | inl opening ↦
              rw (other, opening, observe)
                ((release-TracksKeys k.pressed_keys k.sends t, on, pass, older), refl)
          | inr closed ↦ rw (other, closed, observe) ((t, on, pass, older), refl)
        ]
      ]

  placed-Sound : (k : Keyboard) (p : ℤ × ℤ) → Inv k → Sound k.hook.generation (placed k (some p))
  placed-Sound k (x, y) h =
      if-Sound k.hook.generation (is_far x k.ime_window_anchor.0 || is_far y k.ime_window_anchor.1)
        (go_on (record k { ime_window_anchor = (x, y) })) (go_on k) (h, refl) (h, refl)

  reposition-Sound : (k : Keyboard) → Inv k → Sound k.hook.generation (reposition w k)
  unfolding reposition
  reposition-Sound k h =
      let (p, found) = resolve_ime_anchor_total w.settings w.ime_anchor w.desktop in
      if-Sound k.hook.generation
        (is_armed k.ime_mode && has_elapsed k.ime_anchor_checked 300 w.now_anchor) _ _
        (subst
          (λ a.
            Sound k.hook.generation (placed (record k { ime_anchor_checked = w.now_checked }) a))
          (sym found) (placed-Sound (record k { ime_anchor_checked = w.now_checked }) p h))
        (h, refl)

  after_reposition-Sound : (g : ℕ) (out : Outcome) → Sound g out → Sound g (after_reposition w out)
  after_reposition-Sound g (go_on k) (h, same) =
      subst (λ n. Sound n (checked_hook w k (check_health w.probe k.health))) same
        (checked_hook-Sound k (check_health w.probe k.health) h)
  after_reposition-Sound g (leave k) h = h
  after_reposition-Sound g (panicked k) h = h

  pub turn-Sound : (k : Keyboard) → Inv k → Sound k.hook.generation (turn w k)
  unfolding turn
  turn-Sound k h =
      let absent = watch_target (active_target_present w.target) w.now k.active_absent_since in
      let watched : Keyboard = record k { active_absent_since = absent } in
      let (sent, g1) = forward_commits-Inv w.commits watched h in
      let (seen, g2) = observe-Inv (forward_commits w.commits watched) sent in
      if-Sound k.hook.generation (is_stale absent w.now') _ _ (h, refl)
        (after_reposition-Sound k.hook.generation _ (
          subst (λ n. Sound n (reposition w (observe w (forward_commits w.commits watched))))
            (g2 ∙ g1) (reposition-Sound (observe w (forward_commits w.commits watched)) seen)))
