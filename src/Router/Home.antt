-- ===== src/Router/Home.antt =====
-- Control and the machine's input go together: while the local screen is active the router suppresses
-- and confines nothing. One turn (apps/tailkvm-ui/src-tauri/src/router.rs).
use Prim.Native.String.{String}
use text.Mathlib.Text.{◌==◌ as str_eq}
use text.Mathlib.TextEquality.{eq_iff}
use mathlib.Core.Path.{subst}
use tail_kvm.Base.{
  ◌≡◌, refl, ◌∙◌, ap, ◌≢◌, inl, inr, Bool, true, false, ◌&&◌, Bool-cases, Option, none, some,
  Option-cases, arith,
}
use tail_kvm.Base.Int.{ℤ, pos}
use tail_kvm.Float.{F64}
use tail_kvm.ScreenSpace.Types.{Rect, Edge}
use tail_kvm.ScreenSpace.Guard
use tail_kvm.KeyClass.{is_some}
use tail_kvm.LayoutGraph.Space.{
  MultiScreenSpace, ScreenCursor, ScreenSwitch, rect, neighbor, enter_neighbor,
}
use tail_kvm.LayoutGraph.Moves.{IsSpace}
use tail_kvm.LayoutGraph.Total.{Keeps, apply_delta_total, enter_neighbor-neighbor}
use tail_kvm.Router.{
  link_lost, screen_removed, RouterArgs, Note, Shared, Router, World, screen_sender, Sender,
}
use tail_kvm.Router.Steps.{
  Outcome, go_on, leave, panicked, to_local, clamp_cursor, drain, send_position,
}
use tail_kvm.Router.LocalTurn.{
  cross, crossed_to, watch_edges, pushed, at_position, from_position, local_turn, wants, find_edge,
  is_near_corner, if_fired,
}
use tail_kvm.Router.RemoteTurn.{
  switch_remote, stay_remote, follow, integrate, remote_turn, watch_link, is_expired, is_zero,
}
use tail_kvm.Router.Run.{drop_removed, turn_in, with_space, turn}

-- The local input is free: no remote is active, no hook is in place or flagged, the pointer is not
-- confined, and no anchor is published.
abbrev pub IsFree : Shared → Type 0
IsFree s =
    (s.remote_active ≡ false)
    × (s.mouse_hook.running ≡ false)
    × (s.mouse_hook.installed ≡ false)
    × (s.keyboard_hook.running ≡ false)
    × (s.keyboard_hook.installed ≡ false)
    × (s.confined ≡ none)
    × (s.ime_anchor ≡ none)

-- While the local screen is active its input is free and the hooks have no target, if the history is calm;
-- otherwise the logical cursor is on the active screen.
pub record IsConsistent (calm : Bool) (a : RouterArgs) (r : Router) : Type 0 where
  pub home : calm ≡ true → r.active ≡ a.local_name → IsFree r.shared × (r.active_slot ≡ none)
  pub away : r.active ≢ a.local_name → r.cursor.screen ≡ r.active

-- A space of valid screens in which the local screen is not its own neighbour.
pub record IsRoutable (a : RouterArgs) (space : MultiScreenSpace) : Type 0 where
  pub valid : IsSpace space
  pub loopless : (e : Edge) → neighbor space a.local_name e ≢ some a.local_name

abbrev pub IsAllRoutable : RouterArgs → Shared → Type 0
IsAllRoutable a s = (space : MultiScreenSpace) → s.router_space ≡ some space → IsRoutable a space

abbrev pub Inv : Bool → RouterArgs → Router → Type 0
Inv calm a r = IsConsistent calm a r × IsAllRoutable a r.shared

abbrev pub Sound : Bool → RouterArgs → Option MultiScreenSpace → Outcome → Type 0
Sound calm a spaces (go_on r) = IsConsistent calm a r × (r.shared.router_space ≡ spaces)
Sound calm a spaces (leave r) = Unit
Sound calm a spaces (panicked r) = ⊥

ne_of_str_eq : (s t : String) → str_eq s t ≡ false → s ≢ t
ne_of_str_eq s t h e = ground (arith, eq_iff s t)

to_local-IsConsistent :
    (calm : Bool) (a : RouterArgs) (n : Note) (r : Router) → IsConsistent calm a (to_local a n r)
unfolding to_local
to_local-IsConsistent calm a n r = record {
  home = λ _ _. ((refl, refl, refl, refl, refl, refl, refl), refl);
  away = λ h. absurd (h refl);
}

send_position_keeps :
    (tx : Option Sender) (c : ScreenCursor) (s : Shared)
    → (send_position tx c s).router_space ≡ s.router_space
send_position_keeps none c s = refl
send_position_keeps (some tx) c s = refl

module _ (o : F64) (calm : Bool) (a : RouterArgs) (w : World) (space : MultiScreenSpace) where
  -- Away from the local screen, with the logical cursor on the active one.
  IsAway : Router → Type 0
  IsAway r = (r.active ≢ a.local_name) × (r.cursor.screen ≡ r.active)

  IsAway-IsConsistent : (r : Router) → IsAway r → IsConsistent calm a r
  unfolding IsAway
  IsAway-IsConsistent r (ne, on) = record { home = λ _ e. absurd (ne e); away = λ _. on }

  cross-IsConsistent :
      (entry : ScreenCursor) (r : Router)
      → entry.screen ≢ a.local_name
      → IsConsistent calm a (cross o a w space entry r)
        × ((cross o a w space entry r).shared.router_space ≡ r.shared.router_space)
  unfolding cross clamp_cursor IsAway
  cross-IsConsistent entry r ne = (
    IsAway-IsConsistent (cross o a w space entry r) (ne, refl),
    send_position_keeps (screen_sender w.sessions' entry.screen) _ _,
  )

  crossed_to-IsConsistent :
      (edge : Edge) (x y : ℤ) (r : Router)
      → IsRoutable a space
      → IsConsistent calm a r
      → let r' = crossed_to o a w space r (enter_neighbor o space a.local_name edge x y) in
        IsConsistent calm a r' × (r'.shared.router_space ≡ r.shared.router_space)
  crossed_to-IsConsistent edge x y r good h =
      elim (Option-cases (enter_neighbor o space a.local_name edge x y)) [
        | inl out ↦ rw out (h, refl)
        | inr (entry, into) ↦ rw into (
            cross-IsConsistent entry r (λ e.
              good.loopless edge
                (enter_neighbor-neighbor o space a.local_name edge x y into ∙ ap some e)))
      ]

  watch_edges-IsConsistent :
      (lr : Rect) (x y : ℤ) (r : Router)
      → IsRoutable a space
      → IsConsistent calm a r
      → let r' = watch_edges o a w space lr x y r in
        IsConsistent calm a r' × (r'.shared.router_space ≡ r.shared.router_space)
  unfolding watch_edges
  watch_edges-IsConsistent lr x y r good h =
      let edge = find_edge (wants a space r.push_gate w.now' lr x y) in
      let (guard, fire) =
        Guard.update r.switch_guard (is_some edge) (is_near_corner a.dead_corner_px lr x y edge) in
      let r' : Router = record r { switch_guard = guard } in
      let h' : IsConsistent calm a r' = record { home = h.home; away = h.away } in
      elim (Option-cases (if_fired fire edge)) [
        | inl out ↦ rw (out, watch_edges) (h', refl)
        | inr (e, over) ↦ rw (over, watch_edges) (crossed_to-IsConsistent e x y r' good h')
      ]

  at_position-Sound :
      (r : Router) (x y : ℤ) (lr : Option Rect)
      → IsRoutable a space
      → IsConsistent calm a r
      → Sound calm a r.shared.router_space (at_position o a w space r x y lr)
  at_position-Sound r x y none good h = tt
  at_position-Sound r x y (some lr) good h = watch_edges-IsConsistent lr x y r good h

  from_position-Sound :
      (r : Router) (at : Option (ℤ × ℤ))
      → IsRoutable a space
      → IsConsistent calm a r
      → Sound calm a r.shared.router_space (from_position o a w space r at)
  unfolding pushed
  from_position-Sound r none good h = (h, refl)
  from_position-Sound r (some (x, y)) good h =
      at_position-Sound (pushed w r) x y (rect space a.local_name) good
        (record { home = h.home; away = h.away })

  stay_remote-IsConsistent :
      (next : ScreenCursor) (r : Router) (tx : Option Sender)
      → r.active ≢ a.local_name
      → next.screen ≡ r.active
      → IsConsistent calm a (stay_remote o a w space next r tx)
        × ((stay_remote o a w space next r tx).shared.router_space ≡ r.shared.router_space)
  unfolding stay_remote clamp_cursor IsAway
  stay_remote-IsConsistent next r none ne on =
      (IsAway-IsConsistent (record r { cursor = next }) (ne, on), refl)
  stay_remote-IsConsistent next r (some tx) ne on =
      (IsAway-IsConsistent (stay_remote o a w space next r (some tx)) (ne, on), refl)

  switch_remote-IsConsistent :
      (next : ScreenCursor) (r : Router)
      → next.screen ≢ a.local_name
      → IsConsistent calm a (switch_remote o a w space next r)
        × ((switch_remote o a w space next r).shared.router_space ≡ r.shared.router_space)
  unfolding switch_remote clamp_cursor IsAway
  switch_remote-IsConsistent next r ne = (
    IsAway-IsConsistent (switch_remote o a w space next r) (ne, refl),
    send_position_keeps (screen_sender w.sessions'' next.screen) _ _,
  )

  follow-IsConsistent :
      (r : Router) (next : ScreenCursor) (switch : Option ScreenSwitch)
      → IsConsistent calm a r
      → r.active ≢ a.local_name
      → Keeps r.cursor.screen (next, switch)
      → IsConsistent calm a (follow o a w space r next switch)
        × ((follow o a w space r next switch).shared.router_space ≡ r.shared.router_space)
  unfolding follow
  follow-IsConsistent r next none h ne keeps =
      stay_remote-IsConsistent next r (screen_sender w.sessions' r.active) ne (keeps ∙ h.away ne)
  follow-IsConsistent r next (some s) h ne keeps =
      elim (Bool-cases (str_eq next.screen a.local_name)) [
        | inl back ↦ rw back (
          record {
            home = λ _ _. ((refl, refl, refl, refl, refl, refl, refl), refl);
            away = λ h. absurd (h refl);
          },
          refl,
        )
        | inr other ↦ elim (Bool-cases w.is_composing) [
          | inl composing ↦ rw (other, composing) (h, refl)
          | inr idle ↦
              rw (other, idle)
                (switch_remote-IsConsistent next r (ne_of_str_eq next.screen a.local_name other))
        ]
      ]

  integrate-Sound :
      (r : Router)
      → IsSpace space
      → IsConsistent calm a r
      → r.active ≢ a.local_name
      → Sound calm a r.shared.router_space (integrate o a w space r)
  unfolding integrate
  integrate-Sound r valid h ne =
      let (dx, dy) = drain (pos 0) (pos 0) w.raw_deltas in
      let ((next, switch), moved, keeps) = apply_delta_total o space r.cursor dx dy valid in
      let after = follow-IsConsistent r next switch h ne keeps in
      elim (Bool-cases (is_zero dx && is_zero dy)) [
        | inl idle ↦ rw (idle, integrate) (h, refl)
        | inr pushed ↦ rw (pushed, moved, integrate) after
      ]

  remote_turn-Sound :
      (r : Router)
      → IsSpace space
      → IsConsistent calm a r
      → r.active ≢ a.local_name
      → Sound calm a r.shared.router_space (remote_turn o a w space r)
  unfolding remote_turn
  remote_turn-Sound r valid h ne =
      let since =
        watch_link (is_some (screen_sender w.sessions r.active)) w.now r.link_down_since in
      elim (Bool-cases (is_expired since w.now')) [
        | inl late ↦
            rw (late, remote_turn)
              (to_local-IsConsistent calm a link_lost (record r { link_down_since = none }), refl)
        | inr fresh ↦
            rw (fresh, remote_turn)
              (integrate-Sound (record r { link_down_since = since }) valid
                (record { home = h.home; away = h.away }) ne)
      ]

  turn_in-Sound :
      (r : Router)
      → IsRoutable a space
      → IsConsistent calm a r
      → Sound calm a r.shared.router_space (turn_in o a w space r)
  unfolding turn_in local_turn
  turn_in-Sound r good h = elim (Bool-cases (str_eq r.active a.local_name)) [
    | inl here ↦ rw (here, turn_in) (from_position-Sound r w.cursor_position good h)
    | inr there ↦
        rw (there, turn_in)
          (remote_turn-Sound r good.valid h (ne_of_str_eq r.active a.local_name there))
  ]

  drop_removed-IsConsistent :
      (r : Router)
      → IsConsistent calm a r
      → IsConsistent calm a (drop_removed a space r)
        × ((drop_removed a space r).shared.router_space ≡ r.shared.router_space)
  unfolding drop_removed
  drop_removed-IsConsistent r h = elim (Bool-cases (str_eq r.active a.local_name)) [
    | inl here ↦ rw (here, drop_removed) (h, refl)
    | inr there ↦ elim (Option-cases (rect space r.active)) [
      | inl gone ↦
          rw (there, gone, drop_removed) (to_local-IsConsistent calm a screen_removed r, refl)
      | inr (_, known) ↦ rw (there, known, drop_removed) (h, refl)
    ]
  ]

module _ (o : F64) (calm : Bool) (a : RouterArgs) where
  with_space-Sound :
      (w : World) (r : Router) (spaces : Option MultiScreenSpace)
      → r.shared.router_space ≡ spaces
      → Inv calm a r
      → Sound calm a r.shared.router_space (with_space o a w r spaces)
  with_space-Sound w r none live (h, good) = tt
  with_space-Sound w r (some space) live (h, good) =
      let (h', same) = drop_removed-IsConsistent o calm a w space r h in
      subst (λ spaces. Sound calm a spaces (turn_in o a w space (drop_removed a space r))) same
        (turn_in-Sound o calm a w space (drop_removed a space r) (good space live) h')

  pub turn-Sound :
      (w : World) (r : Router) → Inv calm a r → Sound calm a r.shared.router_space (turn o a w r)
  unfolding turn
  turn-Sound w r h = elim (Bool-cases w.pause_pressed) [
    | inl pressed ↦ rw (pressed, turn) tt
    | inr free ↦ rw (free, turn) (with_space-Sound w r r.shared.router_space refl h)
  ]
