-- ===== src/Seamless/Home.antt =====
-- One turn of the capture engine: it does not panic, and while the local input is in use it is free
-- (apps/tailkvm-ui/src-tauri/src/seamless.rs).
use mathlib.Core.Path.{subst}
use tail_kvm.Base.{
  ◌≡◌, refl, inl, inr, Bool, true, false, ◌&&◌, Bool-cases, Option, none, some, if◌then◌else◌,
}
use tail_kvm.Base.Int.{ℤ, pos}
use tail_kvm.Base.I32.{add_i32}
use tail_kvm.Float.{F64}
use tail_kvm.ScreenSpace.Types.{Region, remote, Edge}
use tail_kvm.ScreenSpace.Guard
use tail_kvm.ScreenSpace.Combined.{CombinedSpace, CursorState, enter_remote_at, apply_delta}
use tail_kvm.ScreenSpace.Bounds.{IsSpace}
use tail_kvm.ScreenSpace.Crossing.{crosses, kept, step_crosses, step_keeps}
use tail_kvm.KeyClass.{is_some}
use tail_kvm.Forwarding.{has_elapsed}
use tail_kvm.Router.LocalTurn.{find_edge}
use tail_kvm.Router.RemoteTurn.{is_expired, is_zero}
use tail_kvm.Router.Steps.{drain}
use tail_kvm.Session.Relay.{delivers}
use tail_kvm.Seamless.{SeamlessArgs, Shared, Engine, World}
use tail_kvm.Seamless.Gain.{Carry, scaled}
use tail_kvm.Seamless.Steps.{Outcome, go_on, leave, panicked, to_local}
use tail_kvm.Seamless.LocalTurn.{
  crossing_space, wants, or_configured, enter, pushed, watch_edges, at_position, local_turn,
}
use tail_kvm.Seamless.RemoteTurn.{
  keepalive_ms, mark_down, return_local, stay_remote, moved, keep_alive, integrate, remote_turn,
}
use tail_kvm.Seamless.Run.{turn}

-- The local input is free: no remote is active, no hook is in place or flagged, the pointer is not
-- confined, and no anchor is published.
abbrev pub IsFree : Shared → Type 0
IsFree s =
    (s.remote_control_active ≡ false)
    × (s.mouse_hook.running ≡ false)
    × (s.mouse_hook.installed ≡ false)
    × (s.keyboard_hook.running ≡ false)
    × (s.keyboard_hook.installed ≡ false)
    × (s.confined ≡ none)
    × (s.ime_anchor ≡ none)

-- The monitor under the cursor and the size used for the peer make a valid space.
abbrev pub IsWorld : SeamlessArgs → World → Type 0
IsWorld a w = (e : Edge) → IsSpace (crossing_space a w e)

-- While the local input is in use it is free, if the history is calm; while the remote is controlled the logical cursor is in
-- the remote region of a valid space.
pub record Inv (calm : Bool) (o : F64) (r : Engine o) : Type 0 where
  pub home : calm ≡ true → r.remote_active ≡ false → IsFree r.shared
  pub away : r.remote_active ≡ true → (r.state.region ≡ remote) × IsSpace r.combined

abbrev pub Sound : Bool → (o : F64) → Outcome o → Type 0
Sound calm o (go_on r) = Inv calm o r
Sound calm o (leave r) = Unit {0}
Sound calm o (panicked r) = ⊥

-- `apply_delta` does not panic on a valid space, and a cursor that does not cross keeps its region.
abbrev Answers : Region → Option (CursorState × Bool) → Type 0
Answers region none = ⊥
Answers region (some (c, true)) = Unit {0}
Answers region (some (c, false)) = c.region ≡ region

module _ (o : F64) where
  apply_delta-Answers :
      (s : CombinedSpace) (c : CursorState) (dx dy : ℤ)
      → IsSpace s
      → Answers c.region (apply_delta o s c dx dy)
  unfolding apply_delta kept
  apply_delta-Answers s c dx dy h =
      let x = add_i32 c.x dx in
      let y = add_i32 c.y dy in
      elim (Bool-cases (crosses s c.region x y)) [
        | inl over ↦ rw (step_crosses o s c.region x y over) tt
        | inr within ↦ rw (step_keeps o s c.region x y h within) refl
      ]

module _ (o : F64) (calm : Bool) where
  return_local-Inv : (next : CursorState) (r : Engine o) → Inv calm o (return_local o next r)
  unfolding return_local
  return_local-Inv next r = record {
    home = λ _ _. (refl, refl, refl, refl, refl, refl, refl);
    away = λ e. absurd (cc);
  }

  stay_remote-Inv :
      (a : SeamlessArgs) (w : World) (next : CursorState) (r : Engine o)
      → r.remote_active ≡ true
      → next.region ≡ remote
      → IsSpace r.combined
      → Inv calm o (stay_remote o a w next r)
  unfolding stay_remote
  stay_remote-Inv a w next r on region valid = record {
    home = λ _ e. absurd (cc);
    away = λ _. (region, valid);
  }

  moved-Sound :
      (a : SeamlessArgs) (w : World) (r : Engine o) (out : Option (CursorState × Bool))
      → r.remote_active ≡ true
      → IsSpace r.combined
      → Answers remote out
      → Sound calm o (moved o a w r out)
  moved-Sound a w r none on valid h = h
  moved-Sound a w r (some (next, true)) on valid h = return_local-Inv next r
  moved-Sound a w r (some (next, false)) on valid h = stay_remote-Inv a w next r on h valid

  keep_alive-Inv :
      (w : World) (r : Engine o)
      → Inv calm o r
      → r.remote_active ≡ true
      → Inv calm o (keep_alive o w r)
  unfolding keep_alive
  keep_alive-Inv w r h on =
      elim (Bool-cases
        (has_elapsed r.last_send keepalive_ms w.now_sent && delivers w.sender_slot')) [
          | inl due ↦ rw due (record { home = λ _ e. absurd (cc); away = h.away })
          | inr fresh ↦ rw fresh h
        ]

  enter-Inv :
      (a : SeamlessArgs) (w : World) (x y : ℤ) (e : Edge) (r : Engine o)
      → IsWorld a w
      → Inv calm o (enter o a w x y e r)
  unfolding enter enter_remote_at
  enter-Inv a w x y e r good = record { home = λ _ e'. absurd (cc); away = λ _. (refl, good e) }

  if-Inv :
      (b : Bool) (x y : Engine o) → Inv calm o x → Inv calm o y → Inv calm o (if b then x else y)
  if-Inv true x y hx hy = hx
  if-Inv false x y hx hy = hy

  if-Sound :
      (b : Bool) (x y : Outcome o)
      → Sound calm o x
      → Sound calm o y
      → Sound calm o (if b then x else y)
  if-Sound true x y hx hy = hx
  if-Sound false x y hx hy = hy

  watch_edges-Inv :
      (a : SeamlessArgs) (w : World) (x y : ℤ) (r : Engine o)
      → IsWorld a w
      → Inv calm o r
      → Inv calm o (watch_edges o a w x y r)
  unfolding watch_edges
  watch_edges-Inv a w x y r good h =
      let cross_edge = find_edge (wants a r.push_gate w.now' w.monitor x y) in
      let (guard, fire) =
        Guard.update r.switch_guard (is_some cross_edge && is_some w.sender_slot) false in
      let guarded : Engine o = record r { switch_guard = guard } in
      if-Inv fire _ _ (enter-Inv a w x y (or_configured a cross_edge) guarded good)
        (record { home = h.home; away = h.away })

  local_turn-Sound :
      (a : SeamlessArgs) (w : World) (r : Engine o)
      → IsWorld a w
      → Inv calm o r
      → Sound calm o (local_turn o a w r)
  unfolding local_turn pushed
  local_turn-Sound a w r good h = go w.cursor_position
    where
      go : (p : Option (ℤ × ℤ)) → Sound calm o (at_position o a w p r)
      go none = h
      go (some (x, y)) =
          watch_edges-Inv a w x y (pushed o w r) good (record { home = h.home; away = h.away })

module _ (o : F64) (calm : Bool) (k : Carry o) (a : SeamlessArgs) where
  integrate-Sound :
      (w : World) (r : Engine o)
      → Inv calm o r
      → r.remote_active ≡ true
      → Sound calm o (integrate o k a w r)
  unfolding integrate
  integrate-Sound w r h on =
      let (acc_x, acc_y) = drain (pos 0) (pos 0) w.raw_deltas in
      let (gain_x, frac_x) = scaled o k r.gain r.frac_x acc_x in
      let (gain_y, frac_y) = scaled o k r.gain r.frac_y acc_y in
      let carried : Engine o = record r { frac_x = frac_x; frac_y = frac_y } in
      let (region, valid) = h.away on in
      if-Sound o calm (is_zero gain_x && is_zero gain_y) _ _
        (keep_alive-Inv o calm w carried (record { home = h.home; away = h.away }) on)
        (moved-Sound o calm a w carried (apply_delta o r.combined r.state gain_x gain_y) on valid (
          subst (λ g. Answers g (apply_delta o r.combined r.state gain_x gain_y)) region
            (apply_delta-Answers o r.combined r.state gain_x gain_y valid)))

  remote_turn-Sound :
      (w : World) (r : Engine o)
      → Inv calm o r
      → r.remote_active ≡ true
      → Sound calm o (remote_turn o k a w r)
  unfolding remote_turn to_local
  remote_turn-Sound w r h on =
      let since = mark_down (is_some w.sender_slot) w.now r.link_down_since in
      if-Sound o calm (is_expired since w.now') _ _
        (record {
          home = λ _ _. (refl, refl, refl, refl, refl, refl, refl);
          away = λ e. absurd (cc);
        })
        (integrate-Sound w (record r { link_down_since = since })
          (record { home = h.home; away = h.away }) on)

  pub turn-Sound :
      (w : World) (r : Engine o) → IsWorld a w → Inv calm o r → Sound calm o (turn o k a w r)
  unfolding turn
  turn-Sound w r good h = if-Sound o calm w.pause_pressed _ _ tt (by_region r.remote_active refl)
    where
      by_region :
          (b : Bool)
          → r.remote_active ≡ b
          → Sound calm o (if b then remote_turn o k a w r else local_turn o a w r)
      by_region true on = remote_turn-Sound w r h on
      by_region false off = local_turn-Sound o calm a w r good h
