-- ===== src/Forwarding/KeyboardRelease.antt =====
-- No key stays down on the peer after the keyboard forwarding thread, and the local keyboard is not left
-- captured or passed through by it (apps/tailkvm-ui/src-tauri/src/forwarding.rs).
use tail_kvm.Base.{
  ℕ, suc, ◌+◌, ◌^◌, ◌<◌, ◌≡◌, refl, sym, ◌∙◌, Bool, true, false, ◌&&◌, List, [], ◌∷◌, length, arith,
  if◌then◌else◌,
}
use tail_kvm.Ime.Mode.{is_on}
use tail_kvm.Session.Held.{Key, key_eq, is_down, contains}
use tail_kvm.Forwarding.{Instant, stop_keyboard_hook_forwarding}
use tail_kvm.Forwarding.Log.{keys_of, TracksKeys}
use tail_kvm.Forwarding.Keyboard.{Keyboard, Outcome, go_on, leave, panicked}
use tail_kvm.Forwarding.KeyboardTurn.{
  turn, is_current, finish, begin, Event, turned, stop_called, start_called, newer_sets, Standing,
  looping, ended, crashed, settle, advance, run,
}
use tail_kvm.Forwarding.KeyboardKeys.{Inv, Sound, all_up}
use tail_kvm.Forwarding.KeyboardKeep.{turn-Sound}

-- After the end: no key that was sent down stays down, none is recorded, the capture window is gone; and if
-- no later start has claimed the generation, nothing is passed through and the hook is out and not
-- flagged. A start claims it even where its hook cannot be installed.
abbrev pub IsReleased : Keyboard → Type 0
IsReleased k =
    ((j : Key) → is_down j false (keys_of k.sends) ≡ false)
    × (k.pressed_keys ≡ [])
    × (k.ime_capture ≡ false)
    × (k.hook.generation ≡ k.my_gen
        → (k.passthrough ≡ false) × (k.hook.running ≡ false) × (k.hook.installed ≡ false))

-- While the thread loops its record says what is down; the capture window is there exactly while the
-- composition mode is on; and if no later start has claimed the generation, the hook passes keys through exactly
-- then.
abbrev pub KeepsKeys : Standing → Type 0
KeepsKeys (looping k) =
    TracksKeys k.pressed_keys k.sends
    × (is_on k.ime_mode ≡ k.ime_capture)
    × (k.hook.generation ≡ k.my_gen → k.passthrough ≡ is_on k.ime_mode)
KeepsKeys (ended k) = IsReleased k
KeepsKeys (crashed k) = ⊥

finish-IsReleased : (k : Keyboard) → Inv k → IsReleased (finish k)
unfolding finish stop_keyboard_hook_forwarding
finish-IsReleased k (t, mode, pass, older) = (all_up k.pressed_keys k.sends t, refl, refl, owned)
  where
    owned :
        (finish k).hook.generation ≡ k.my_gen
        → ((finish k).passthrough ≡ false)
          × ((finish k).hook.running ≡ false)
          × ((finish k).hook.installed ≡ false)
    owned e = ground (arith, pass)

-- The bound on the generations leaves room for those that the rest of the history can claim.
abbrev Holds : ℕ → Standing → Type 0
Holds left (looping k) = Inv k × (k.hook.generation + left < 2 ^ 64)
Holds left (ended k) = IsReleased k
Holds left (crashed k) = ⊥

settle-Holds :
    (left g : ℕ) (out : Outcome) → Sound g out → g + suc left < 2 ^ 64 → Holds left (settle out)
settle-Holds left g (go_on k) (h, same) b = (h, rw same (omega arith))
settle-Holds left g (leave k) (h, same) b = finish-IsReleased k h
settle-Holds left g (panicked k) h b = h

advance-Holds :
    (left : ℕ) (e : Event) (k : Keyboard)
    → Inv k
    → k.hook.generation + suc left < 2 ^ 64
    → Holds left (advance e k)
unfolding advance
advance-Holds left (turned w) k h b = choose (k.hook.running && is_current k)
  where
    choose : (c : Bool) → Holds left (if c then settle (turn w k) else ended (finish k))
    choose true = settle-Holds left k.hook.generation (turn w k) (turn-Sound w k h) b
    choose false = finish-IsReleased k h
advance-Holds left stop_called k h b = (unfold stop_keyboard_hook_forwarding in h, ground arith)
advance-Holds left (newer_sets passthrough) k (t, mode, pass, older) b =
    ((t, mode, λ e. ground (arith, pass e), older), omega arith)
advance-Holds left (start_called install_ok) k (t, mode, pass, older) b =
    ((t, mode, λ e. ground (arith, pass), ground arith), ground arith)

run_from-KeepsKeys :
    (k : Keyboard) (es : List Event)
    → Inv k
    → k.hook.generation + length es < 2 ^ 64
    → KeepsKeys (run k es)
unfolding run
run_from-KeepsKeys k [] (t, mode, pass, older) b = (t, mode, λ e. pass e ∙ sym mode)
run_from-KeepsKeys k (e ∷ es) h b =
    onward (advance e k) (λ k' (h', b'). run_from-KeepsKeys k' es h' b')
      (advance-Holds (length es) e k h b)
  where
    onward :
        (s : Standing)
        → ((k' : Keyboard)
            → Inv k' × (k'.hook.generation + length es < 2 ^ 64)
            → KeepsKeys (run k' es))
        → Holds (length es) s
        → KeepsKeys
            (elim s [ looping k' ↦ run k' es | ended k' ↦ ended k' | crashed k' ↦ crashed k' ])
    onward (looping k') next h = next k' h
    onward (ended k') next h = h
    onward (crashed k') next h = h

-- Through any turns of the keyboard forwarding thread and any stops, starts and pass-through changes of
-- other threads, as long as the generations stay below 2^64, the thread never panics. While it loops, its
-- record holds exactly the keys whose last message was a press, the capture window is there exactly
-- while the composition mode is on, and, as long as no later start has claimed the generation of the
-- hook, the hook passes keys through exactly then. Once it has ended, the last message tried for each
-- key, if there was one, was its release, the capture window is gone, and, if no later start has claimed
-- the generation, nothing is passed through and the hook is out and not flagged. A later start that finds
-- the hook not flagged claims the generation, also where its hook cannot be installed and no newer thread
-- runs; nothing is stated of the pass-through and of the hook after that.
pub run-KeepsKeys :
    (before : Keyboard) (held : Bool × Bool × Bool × Bool) (now : Instant) (seen : ℕ)
    (es : List Event)
    → before.hook.generation + length es < 2 ^ 64
    → KeepsKeys (run (begin before held now seen) es)
unfolding begin contains keys_of is_down is_on
run-KeepsKeys before (c, a, w, s) now seen es b =
    run_from-KeepsKeys (begin before (c, a, w, s) now seen) es
      (λ k. refl, refl, λ _. refl, omega arith) b
