-- ===== src/Router/Push.antt =====
-- When `run_router` leaves the local screen: only through an edge that the cursor is at, after a fresh
-- physical push through it (apps/tailkvm-ui/src-tauri/src/router.rs).
use Prim.Native.String.{String}
use text.Mathlib.TextEquality.{eq_iff}
use mathlib.Core.Path.{subst}
use tail_kvm.Base.{
  ◌≡◌, refl, sym, ◌≢◌, inl, inr, Bool, true, false, Option, none, some, Option-cases, arith,
  if◌then◌else◌,
}
use tail_kvm.Base.Int.{ℤ}
use tail_kvm.Float.{F64}
use tail_kvm.Core.PushGate.{is_fresh}
use tail_kvm.KeyClass.{is_some}
use tail_kvm.ScreenSpace.Types.{Rect, Edge}
use tail_kvm.ScreenSpace.Guard
use tail_kvm.LayoutGraph.Space.{MultiScreenSpace, rect, neighbor, enter_neighbor}
use tail_kvm.LayoutGraph.Total.{enter_neighbor-neighbor}
use tail_kvm.Router.{RouterArgs, Router, World, failsafe, note}
use tail_kvm.Router.Steps.{Outcome, go_on, leave, panicked, finish}
use tail_kvm.Router.LocalTurn.{
  edge_to_push_dir, at_edge, wants, find_edge, is_near_corner, if_fired, cross, crossed_to,
  watch_edges, pushed, at_position, from_position, local_turn,
}
use tail_kvm.Router.Run.{drop_removed, turn_in, turn, with_space, looping, ended, settle, step}

-- The turn has gone through an edge of the local rectangle: the cursor was at it, the pushes recorded up
-- to this turn have a fresh one that way, and the screen now active lies across it.
pub record IsPushedThrough (a : RouterArgs) (w : World) (r : Router) (active : String)
    : Type 0 where
  pub space : MultiScreenSpace
  pub live : r.shared.router_space ≡ some space
  pub position : ℤ × ℤ
  pub seen : w.cursor_position ≡ some position
  pub lr : Rect
  pub known : rect space a.local_name ≡ some lr
  pub edge : Edge
  pub at : at_edge a.edge_margin lr position.0 position.1 edge ≡ true
  pub fresh : is_fresh (pushed w r).push_gate (edge_to_push_dir edge) w.now' ≡ true
  pub across : neighbor space a.local_name edge ≡ some active

find_edge-true : (p : Edge → Bool) {e : Edge} → find_edge p ≡ some e → p e ≡ true
unfolding find_edge
find_edge-true p h = ground arith

if_fired-some : (fire : Bool) (o : Option Edge) {e : Edge} → if_fired fire o ≡ some e → o ≡ some e
if_fired-some true (some f) h = h
if_fired-some false (some f) h = cc
if_fired-some fire none h = h

module _ (o : F64) (a : RouterArgs) (w : World) where
  module _ (space : MultiScreenSpace) (lr : Rect) (x y : ℤ) where
    -- What a crossing to `active` from the router `r` has met.
    Met : Router → String → Type 0
    Met r active =
        (edge : Edge) × (at_edge a.edge_margin lr x y edge ≡ true)
        × (is_fresh r.push_gate (edge_to_push_dir edge) w.now' ≡ true)
        × (neighbor space a.local_name edge ≡ some active)

    wants-parts :
        (r : Router) (e : Edge)
        → wants a space r.push_gate w.now' lr x y e ≡ true
        → (at_edge a.edge_margin lr x y e ≡ true)
          × (is_fresh r.push_gate (edge_to_push_dir e) w.now' ≡ true)
    unfolding wants
    wants-parts r e h = ground arith

    crossed_to-Met :
        (r s : Router) (e : Edge)
        → s.active ≡ a.local_name
        → wants a space r.push_gate w.now' lr x y e ≡ true
        → let s' = crossed_to o a w space s (enter_neighbor o space a.local_name e x y) in
          s'.active ≢ a.local_name → Met r s'.active
    unfolding cross Met
    crossed_to-Met r s e home h = elim (Option-cases (enter_neighbor o space a.local_name e x y)) [
      | inl out ↦ rw out (λ ne. absurd (ne home))
      | inr (entry, into) ↦ rw into (λ ne. (
        e,
        (wants-parts r e h).0,
        (wants-parts r e h).1,
        enter_neighbor-neighbor o space a.local_name e x y into,
      ))
    ]

    watch_edges-Met :
        (r : Router)
        → r.active ≡ a.local_name
        → (watch_edges o a w space lr x y r).active ≢ a.local_name
        → Met r (watch_edges o a w space lr x y r).active
    unfolding watch_edges
    watch_edges-Met r home =
        let edge = find_edge (wants a space r.push_gate w.now' lr x y) in
        let (guard, fire) =
          Guard.update r.switch_guard (is_some edge)
            (is_near_corner a.dead_corner_px lr x y edge) in
        elim (Option-cases (if_fired fire edge)) [
          | inl out ↦ rw (out, watch_edges) (λ ne. absurd (ne home))
          | inr (e, over) ↦
              rw (over, watch_edges)
                (crossed_to-Met r (record r { switch_guard = guard }) e home
                  (find_edge-true (wants a space r.push_gate w.now' lr x y)
                    (if_fired-some fire edge over)))
        ]

  -- What holds of a turn that goes on away from the local screen.
  Crosses : Router → Outcome → Type 0
  Crosses r (go_on r') = r'.active ≢ a.local_name → IsPushedThrough a w r r'.active
  Crosses r _ = Unit {0}

  at_position-Crosses :
      (space : MultiScreenSpace) (r : Router) (x y : ℤ) (lr : Option Rect)
      → r.active ≡ a.local_name
      → r.shared.router_space ≡ some space
      → w.cursor_position ≡ some (x, y)
      → rect space a.local_name ≡ lr
      → Crosses r (at_position o a w space (pushed w r) x y lr)
  unfolding Crosses Met pushed
  at_position-Crosses space r x y none home live seen known = tt
  at_position-Crosses space r x y (some lr) home live seen known = λ ne.
      let (edge, at, fresh, across) = watch_edges-Met space lr x y (pushed w r) home ne in
      record {
        space = space;
        live = live;
        position = (x, y);
        seen = seen;
        lr = lr;
        known = known;
        edge = edge;
        at = at;
        fresh = fresh;
        across = across;
      }

  from_position-Crosses :
      (space : MultiScreenSpace) (r : Router) (at : Option (ℤ × ℤ))
      → r.active ≡ a.local_name
      → r.shared.router_space ≡ some space
      → w.cursor_position ≡ at
      → Crosses r (from_position o a w space r at)
  unfolding Crosses
  from_position-Crosses space r none home live seen = λ ne. absurd (ne home)
  from_position-Crosses space r (some (x, y)) home live seen =
      at_position-Crosses space r x y (rect space a.local_name) home live seen refl

  turn_in-Crosses :
      (space : MultiScreenSpace) (r : Router)
      → r.active ≡ a.local_name
      → r.shared.router_space ≡ some space
      → Crosses r (turn_in o a w space r)
  unfolding turn_in local_turn
  turn_in-Crosses space r home live =
      rw ((eq_iff r.active a.local_name).1 home, turn_in)
        (from_position-Crosses space r w.cursor_position home live refl)

  drop_removed_home :
      (space : MultiScreenSpace) (r : Router) → r.active ≡ a.local_name → drop_removed a space r ≡ r
  unfolding drop_removed
  drop_removed_home space r home = rw ((eq_iff r.active a.local_name).1 home, drop_removed)

  with_space-Crosses :
      (r : Router) (spaces : Option MultiScreenSpace)
      → r.active ≡ a.local_name
      → r.shared.router_space ≡ spaces
      → Crosses r (with_space o a w r spaces)
  unfolding Crosses
  with_space-Crosses r none home live = tt
  with_space-Crosses r (some space) home live =
      subst (λ s. Crosses r (turn_in o a w space s)) (sym (drop_removed_home space r home))
        (turn_in-Crosses space r home live)

  -- While the local screen is active, a turn after which the loop goes on with another screen active has
  -- gone through an edge of the local rectangle: the cursor was within the margin of it, the pushes
  -- recorded up to this turn have one through it that is fresh, and the screen now active lies across it.
  pub step-IsPushedThrough :
      (r r' : Router)
      → r.active ≡ a.local_name
      → step o a w r ≡ looping r'
      → r'.active ≢ a.local_name
      → IsPushedThrough a w r r'.active
  unfolding step turn Crosses
  step-IsPushedThrough r r' home on away =
      choose r.shared.router_running w.pause_pressed (with_space o a w r r.shared.router_space)
        (with_space-Crosses r r.shared.router_space home refl) on
    where
      choose :
          (running pressed : Bool) (out : Outcome)
          → Crosses r out
          → (if running
              then settle
                  (if pressed then leave (record r { shared = note failsafe r.shared }) else out)
              else ended (finish r))
            ≡ looping r'
          → IsPushedThrough a w r r'.active
      choose true false (go_on s) h e =
          let same : s ≡ r' = cc in
          subst (λ (q : Router). IsPushedThrough a w r q.active) same
            (h (λ back. away (subst (λ (q : Router). q.active ≡ a.local_name) same back)))
      choose true false (leave s) h e = cc
      choose true false (panicked s) h e = cc
      choose true true out h e = cc
      choose false pressed out h e = cc
