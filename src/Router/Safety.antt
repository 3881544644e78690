-- ===== src/Router/Safety.antt =====
-- The local input through a whole run of the router, with what the other threads do in between
-- (apps/tailkvm-ui/src-tauri/src/router.rs).
use mathlib.Core.Path.{subst}
use tail_kvm.Base.{
  ◌≡◌, refl, sym, ◌∙◌, Bool, true, false, none, some, List, [], ◌∷◌, arith, if◌then◌else◌,
}
use tail_kvm.Float.{F64}
use tail_kvm.LayoutGraph.Space.{MultiScreenSpace}
use tail_kvm.Router.{RouterArgs, Shared, Router, World}
use tail_kvm.Router.Steps.{Outcome, go_on, leave, panicked, finish}
use tail_kvm.Router.Run.{
  start, turn, settle, Outside, stop_command, failsafe_key, keyboard_thread_ended, capture_stopped,
  paused, emergency, mouse_hook_stopped, keyboard_hook_stopped, remote_deactivated, swap_space,
  mouse_thread_ended, elsewhere, interfere, Event, turned, meanwhile, is_calm_event, is_calm,
  Standing, looping, ended, crashed, step, advance, run, run_router, refused,
}
use tail_kvm.Router.Home.{IsFree, IsConsistent, IsRoutable, IsAllRoutable, Inv, Sound, turn-Sound}

-- The end of the loop has stopped the router, freed the local input and cleared the space.
abbrev pub IsStopped : Router → Type 0
IsStopped r = (r.shared.router_running ≡ false) × (r.shared.router_space ≡ none) × IsFree r.shared

-- Whether the history is calm, and where the router stands after it.
abbrev pub IsSafe : Bool → RouterArgs → Standing → Type 0
IsSafe calm a (looping r) = IsConsistent calm a r
IsSafe calm a (ended r) = IsStopped r
IsSafe calm a (crashed r) = ⊥
IsSafe calm a (refused s) = (s.router_running ≡ false) × IsFree s

-- The spaces that other threads put in place.
abbrev pub SwapsRoutable : RouterArgs → List Event → Type 0
SwapsRoutable a [] = Unit {0}
SwapsRoutable a (meanwhile (swap_space space) ∷ es) = IsRoutable a space × SwapsRoutable a es
SwapsRoutable a (meanwhile (elsewhere s) ∷ es) = IsAllRoutable a s × SwapsRoutable a es
SwapsRoutable a (_ ∷ es) = SwapsRoutable a es

finish-IsStopped : (r : Router) → IsStopped (finish r)
unfolding finish
finish-IsStopped r = (refl, refl, (refl, refl, refl, refl, refl, refl, refl))

abbrev Holds : Bool → RouterArgs → Standing → Type 0
Holds calm a (looping r) = Inv calm a r
Holds calm a (ended r) = IsStopped r
Holds calm a (crashed r) = ⊥
Holds calm a (refused s) = ⊥

settle-Holds :
    (calm : Bool) (a : RouterArgs) (r : Router) (out : Outcome)
    → IsAllRoutable a r.shared
    → Sound calm a r.shared.router_space out
    → Holds calm a (settle out)
settle-Holds calm a r (go_on r') good (h, same) = (h, λ space live. good space (sym same ∙ live))
settle-Holds calm a r (leave r') good h = finish-IsStopped r'
settle-Holds calm a r (panicked r') good h = h

-- What the other threads do in a calm history only takes hooks away, and leaves the rest of the local
-- input alone.
interfere-Inv :
    (calm : Bool) (a : RouterArgs) (e : Outside) (r : Router)
    → SwapsRoutable a (meanwhile e ∷ [])
    → (calm ≡ true → is_calm_event (meanwhile e) ≡ true)
    → Inv calm a r
    → Inv calm a (record r { shared = interfere e r.shared })
unfolding interfere
interfere-Inv calm a (elsewhere s) r g b (h, good) =
    (record { home = λ c e. absurd (cc (b c)); away = h.away }, g.0)
interfere-Inv calm a capture_stopped r g b (h, good) =
    (record { home = λ b e. ground (arith, h.home b e); away = h.away }, good)
interfere-Inv calm a paused r g b (h, good) =
    (record { home = λ b e. ground (arith, h.home b e); away = h.away }, good)
interfere-Inv calm a emergency r g b (h, good) =
    (record { home = λ b e. ground (arith, h.home b e); away = h.away }, good)
interfere-Inv calm a mouse_hook_stopped r g b (h, good) =
    (record { home = λ b e. ground (arith, h.home b e); away = h.away }, good)
interfere-Inv calm a keyboard_hook_stopped r g b (h, good) =
    (record { home = λ b e. ground (arith, h.home b e); away = h.away }, good)
interfere-Inv calm a remote_deactivated r g b (h, good) =
    (record { home = λ b e. ground (arith, h.home b e); away = h.away }, good)
interfere-Inv calm a stop_command r g b (h, good) =
    (record { home = h.home; away = h.away }, λ space live. cc)
interfere-Inv calm a failsafe_key r g b (h, good) =
    (record { home = λ b e. ground (arith, h.home b e); away = h.away }, good)
interfere-Inv calm a keyboard_thread_ended r g b (h, good) =
    (record { home = λ b e. ground (arith, h.home b e); away = h.away }, good)
interfere-Inv calm a (swap_space space) r g b (h, good) =
    (record { home = h.home; away = h.away }, λ space' live. subst (IsRoutable a) (cc) g.0)
interfere-Inv calm a (mouse_thread_ended flag_left) r g b (h, good) =
    (record { home = λ b e. ground (arith, h.home b e); away = h.away }, good)

module _ (o : F64) (calm : Bool) (a : RouterArgs) where
  if-Holds :
      (b : Bool) (x y : Standing)
      → Holds calm a x
      → Holds calm a y
      → Holds calm a (if b then x else y)
  if-Holds true x y hx hy = hx
  if-Holds false x y hx hy = hy

  step-Holds : (w : World) (r : Router) → Inv calm a r → Holds calm a (step o a w r)
  unfolding step
  step-Holds w r h =
      if-Holds r.shared.router_running _ _
        (settle-Holds calm a r (turn o a w r) h.1 (turn-Sound o calm a w r h)) (finish-IsStopped r)

  advance-Holds :
      (e : Event) (r : Router)
      → SwapsRoutable a (e ∷ [])
      → (calm ≡ true → is_calm_event e ≡ true)
      → Inv calm a r
      → Holds calm a (advance o a e r)
  unfolding advance
  advance-Holds (turned w) r g b h = step-Holds w r h
  advance-Holds (meanwhile e) r g b h = interfere-Inv calm a e r g b h

  SwapsRoutable-split :
      (e : Event) (es : List Event)
      → SwapsRoutable a (e ∷ es)
      → SwapsRoutable a (e ∷ []) × SwapsRoutable a es
  SwapsRoutable-split (meanwhile (swap_space space)) es (g, gs) = ((g, tt), gs)
  SwapsRoutable-split (meanwhile (elsewhere s)) es (g, gs) = ((g, tt), gs)
  SwapsRoutable-split (meanwhile capture_stopped) es gs = (tt, gs)
  SwapsRoutable-split (meanwhile paused) es gs = (tt, gs)
  SwapsRoutable-split (meanwhile emergency) es gs = (tt, gs)
  SwapsRoutable-split (meanwhile mouse_hook_stopped) es gs = (tt, gs)
  SwapsRoutable-split (meanwhile keyboard_hook_stopped) es gs = (tt, gs)
  SwapsRoutable-split (meanwhile remote_deactivated) es gs = (tt, gs)
  SwapsRoutable-split (turned w) es gs = (tt, gs)
  SwapsRoutable-split (meanwhile stop_command) es gs = (tt, gs)
  SwapsRoutable-split (meanwhile failsafe_key) es gs = (tt, gs)
  SwapsRoutable-split (meanwhile keyboard_thread_ended) es gs = (tt, gs)
  SwapsRoutable-split (meanwhile (mouse_thread_ended f)) es gs = (tt, gs)

  onward :
      (s : Standing) (es : List Event)
      → ((r : Router) → Inv calm a r → IsSafe calm a (run o a r es))
      → Holds calm a s
      → IsSafe calm a (elim s [
        | looping r' ↦ run o a r' es
        | ended r' ↦ ended r'
        | crashed r' ↦ crashed r'
        | refused s ↦ refused s
      ])
  onward (looping r) es next h = next r h
  onward (ended r) es next h = h
  onward (crashed r) es next h = absurd h
  onward (refused s) es next h = absurd h

  run-Holds :
      (r : Router) (es : List Event)
      → SwapsRoutable a es
      → (calm ≡ true → is_calm es ≡ true)
      → Inv calm a r
      → IsSafe calm a (run o a r es)
  unfolding run is_calm
  run-Holds r [] g b h = h.0
  run-Holds r (e ∷ es) g b h =
      let (now, later) = SwapsRoutable-split e es g in
      onward (advance o a e r) es (λ r' h'. run-Holds r' es later (λ c. ground (arith, b c)) h')
        (advance-Holds e r now (λ c. ground (arith, b c)) h)

module _ (o : F64) (a : RouterArgs) where
  -- A router that starts with the local input free, on a space of valid screens in which the local screen
  -- is not its own neighbour, and that only finds such spaces, never panics, through any turns and
  -- whatever the other threads do to the shared state between them. While it runs, and another screen is
  -- active, the logical cursor is on that screen. While it runs, the local screen is active and no other
  -- thread has started a hook, a capture or a second router, no remote is active, no hook is in place or
  -- flagged, the pointer is not confined, no anchor is published and the slot of the hooks is empty. Its
  -- end, whatever came before, marks it stopped, clears the space and frees the local input. Where Raw
  -- Input is not available it is marked stopped and the local input is free.
  pub run_router-IsSafe :
      (raw_ok : Bool) (s : Shared) (space : MultiScreenSpace) (es : List Event)
      → s.router_space ≡ some space
      → IsRoutable a space
      → IsFree s
      → SwapsRoutable a es
      → IsSafe (is_calm es) a (run_router o raw_ok a s es)
  unfolding run_router start
  run_router-IsSafe false s space es live good free g = (refl, free)
  run_router-IsSafe true s space es live good free g =
      run-Holds o (is_calm es) a (start a s) es g (λ c. c)
        (
          record { home = λ _ _. (free, refl); away = λ ne. absurd (ne refl) },
          λ space' live'. subst (IsRoutable a) (cc) good,
        )
