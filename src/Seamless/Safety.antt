-- ===== src/Seamless/Safety.antt =====
-- While the local input is in use the capture engine suppresses and confines nothing, and it never
-- panics (apps/tailkvm-ui/src-tauri/src/seamless.rs).
use tail_kvm.Base.{◌≡◌, refl, Bool, true, false, List, [], ◌∷◌, arith, if◌then◌else◌}
use tail_kvm.Float.{F64}
use tail_kvm.Core.PushGate.{Instant}
use tail_kvm.Seamless.{SeamlessArgs, Shared, Engine, World}
use tail_kvm.Seamless.Gain.{Carry}
use tail_kvm.Seamless.Steps.{Outcome, go_on, leave, panicked, finish}
use tail_kvm.Seamless.Run.{
  Outside, stop_command, emergency, failsafe_key, keyboard_thread_ended, paused, mouse_hook_stopped,
  keyboard_hook_stopped, remote_deactivated, elsewhere, mouse_thread_ended, interfere, Event,
  turned, meanwhile, is_calm_event, is_calm, Standing, looping, ended, crashed, refused, start,
  turn, settle, step, advance, run, run_seamless_capture,
}
use tail_kvm.Seamless.Home.{IsFree, IsWorld, Inv, Sound, turn-Sound}

abbrev pub AreWorlds : SeamlessArgs → List Event → Type 0
AreWorlds a [] = Unit {0}
AreWorlds a (turned w ∷ es) = IsWorld a w × AreWorlds a es
AreWorlds a (meanwhile e ∷ es) = AreWorlds a es

-- The loop is over: it is marked stopped, and the local input is free.
abbrev pub IsStopped : Shared → Type 0
IsStopped s = (s.capture_running ≡ false) × IsFree s

-- Whether the history is calm, and where the engine stands after it.
abbrev pub IsSafe : Bool → (o : F64) → Standing o → Type 0
IsSafe calm o (looping r) = Inv calm o r
IsSafe calm o (ended r) = IsStopped r.shared
IsSafe calm o (crashed r) = ⊥
IsSafe calm o (refused s) = IsStopped s

module _ (o : F64) (calm : Bool) (k : Carry o) (a : SeamlessArgs) where
  finish-IsStopped : (r : Engine o) → IsStopped (finish o r).shared
  unfolding finish
  finish-IsStopped r = (refl, (refl, refl, refl, refl, refl, refl, refl))

  abbrev Holds : Standing o → Type 0
  Holds (looping r) = Inv calm o r
  Holds (ended r) = IsStopped r.shared
  Holds (crashed r) = ⊥
  Holds (refused s) = ⊥

  settle-Holds : (out : Outcome o) → Sound calm o out → Holds (settle o k out)
  settle-Holds (go_on r) h = h
  settle-Holds (leave r) h = finish-IsStopped r
  settle-Holds (panicked r) h = h

  -- What the other threads do in a calm history only takes hooks away, and leaves the rest of the local input alone.
  interfere-Inv :
      (e : Outside) (r : Engine o)
      → (calm ≡ true → is_calm_event (meanwhile e) ≡ true)
      → Inv calm o r
      → Inv calm o (record r { shared = interfere e r.shared })
  unfolding interfere
  interfere-Inv (elsewhere s) r b h = record { home = λ c e. absurd (cc (b c)); away = h.away }
  interfere-Inv paused r b h = record { home = λ b e. ground (arith, h.home b e); away = h.away }
  interfere-Inv mouse_hook_stopped r b h = record {
    home = λ b e. ground (arith, h.home b e);
    away = h.away;
  }
  interfere-Inv keyboard_hook_stopped r b h = record {
    home = λ b e. ground (arith, h.home b e);
    away = h.away;
  }
  interfere-Inv remote_deactivated r b h = record {
    home = λ b e. ground (arith, h.home b e);
    away = h.away;
  }
  interfere-Inv stop_command r b h = record {
    home = λ b e. ground (arith, h.home b e);
    away = h.away;
  }
  interfere-Inv emergency r b h = record { home = λ b e. ground (arith, h.home b e); away = h.away }
  interfere-Inv failsafe_key r b h = record {
    home = λ b e. ground (arith, h.home b e);
    away = h.away;
  }
  interfere-Inv keyboard_thread_ended r b h = record {
    home = λ b e. ground (arith, h.home b e);
    away = h.away;
  }
  interfere-Inv (mouse_thread_ended flag_left) r b h = record {
    home = λ b e. ground (arith, h.home b e);
    away = h.away;
  }

  if-Holds : (b : Bool) (x y : Standing o) → Holds x → Holds y → Holds (if b then x else y)
  if-Holds true x y hx hy = hx
  if-Holds false x y hx hy = hy

  step-Holds : (w : World) (r : Engine o) → IsWorld a w → Inv calm o r → Holds (step o k a w r)
  unfolding step
  step-Holds w r good h =
      if-Holds r.shared.capture_running _ _
        (settle-Holds (turn o k a w r) (turn-Sound o calm k a w r good h)) (finish-IsStopped r)

  onward :
      (s : Standing o) (es : List Event)
      → ((r : Engine o) → Inv calm o r → IsSafe calm o (run o k a r es))
      → Holds s
      → IsSafe calm o (elim s [
        | looping r' ↦ run o k a r' es
        | ended r' ↦ ended r'
        | crashed r' ↦ crashed r'
        | refused s ↦ refused s
      ])
  onward (looping r) es next h = next r h
  onward (ended r) es next h = h
  onward (crashed r) es next h = absurd h
  onward (refused s) es next h = absurd h

  run-IsSafe :
      (r : Engine o) (es : List Event)
      → AreWorlds a es
      → (calm ≡ true → is_calm es ≡ true)
      → Inv calm o r
      → IsSafe calm o (run o k a r es)
  unfolding run advance is_calm
  run-IsSafe r [] g b h = h
  run-IsSafe r (turned w ∷ es) (good, later) b h =
      onward (step o k a w r) es (λ r' h'. run-IsSafe r' es later b h') (step-Holds w r good h)
  run-IsSafe r (meanwhile e ∷ es) later b h =
      run-IsSafe (record r { shared = interfere e r.shared }) es later (λ c. ground (arith, b c))
        (interfere-Inv e r (λ c. ground (arith, b c)) h)

module _ (o : F64) (k : Carry o) (a : SeamlessArgs) where
  -- A capture engine that starts with the local input free never panics, through any turns in which the
  -- monitor under the cursor and the size used for the peer make a valid space, and whatever the other
  -- threads do to the shared state between them. While it runs and the remote is controlled, the logical
  -- cursor is in the remote region of a valid space. While it runs, the local input is in use and no other
  -- thread has started a hook, the router or another capture, no remote is active, no hook is in place
  -- or flagged, the pointer is not confined and no anchor is published. Its end, whatever came before,
  -- marks it stopped and frees the local input; where Raw Input is not available it is marked stopped
  -- and the local input is free.
  pub run_seamless_capture-IsSafe :
      (raw_ok : Bool) (gain : o.Carrier) (now : Instant) (s : Shared) (es : List Event)
      → IsFree s
      → AreWorlds a es
      → IsSafe (is_calm es) o (run_seamless_capture o k raw_ok a gain now s es)
  unfolding run_seamless_capture start
  run_seamless_capture-IsSafe false gain now s es free g = (refl, free)
  run_seamless_capture-IsSafe true gain now s es free g =
      run-IsSafe o (is_calm es) k a (start o k a gain now s) es g (λ c. c)
        (record { home = λ _ _. free; away = λ e. absurd (cc) })
