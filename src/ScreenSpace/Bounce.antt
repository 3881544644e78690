-- ===== src/ScreenSpace/Bounce.antt =====
-- No bounce: after a crossing, a small delta does not lead back over the edge.
use tail_kvm.Base.{◌+◌, ◌≤◌, ◌≡◌, refl, inl, inr, Bool, true, false, Bool-cases, Option, some}
use tail_kvm.Base.Int.{ℤ, pos, pos_part, neg_part, ltb_ℤ}
use tail_kvm.Base.I32.{
  leb_ℤ, IsCoord, add_i32, sub_i32, ltb_ℤ-false, leb_ℤ-false, sub_i32_parts, i32_laws,
}
use tail_kvm.Float.{F64, IsIeee}
use tail_kvm.ScreenSpace.Types.{Region, Edge}
use tail_kvm.ScreenSpace.Combined.{
  CursorState, CombinedSpace, crosses_local_to_remote, crosses_remote_to_local, enter_remote,
  enter_local, enter_remote_at, enter_local_at, apply_delta,
}
use tail_kvm.ScreenSpace.Bounds.{Inside, IsSpace, region_rect}
use tail_kvm.ScreenSpace.Crossing.{crosses, kept, entered, step_crosses, step_keeps}

entry_of :
    {o : Option (CursorState × Bool)} {c c' : CursorState} {b : Bool}
    → o ≡ some (c, b)
    → o ≡ some (c', b)
    → c ≡ c'
entry_of p q = cc

not_both :
    {o : Option (CursorState × Bool)} {c c' : CursorState}
    → o ≡ some (c, false)
    → o ≡ some (c', true)
    → ⊥
not_both p q = cc

-- |d| ≤ inset
abbrev pub AtMost : ℤ → ℤ → Type 0
AtMost inset d =
    (pos_part d + neg_part inset ≤ neg_part d + pos_part inset)
    × (neg_part d + neg_part inset ≤ pos_part d + pos_part inset)

-- An entry point `inset` pixels off an edge stays on its side of it under a delta of that size.
pub low_clear :
    (lo inset d : ℤ)
    → IsCoord lo
    → IsCoord inset
    → AtMost inset d
    → ltb_ℤ (add_i32 (add_i32 lo inset) d) lo ≡ false
low_clear lo inset d hl hi hd = ltb_ℤ-false (add_i32 (add_i32 lo inset) d) lo (omega i32_laws)

pub high_clear :
    (hi inset d : ℤ)
    → IsCoord hi
    → IsCoord inset
    → AtMost inset d
    → leb_ℤ hi (add_i32 (sub_i32 (sub_i32 hi (pos 1)) inset) d) ≡ false
high_clear hi inset d hh hi' hd =
    leb_ℤ-false hi (add_i32 (sub_i32 (sub_i32 hi (pos 1)) inset) d)
      (omega (i32_laws, sub_i32_parts hi (pos 1), sub_i32_parts (sub_i32 hi (pos 1)) inset))

module _ (o : F64) (law : IsIeee o) where
  remote_clear :
      (s : CombinedSpace) (x y dx dy : ℤ)
      → IsSpace s
      → AtMost s.inset dx
      → AtMost s.inset dy
      → let (cx, cy) = enter_remote o s y x in
        crosses_remote_to_local s (add_i32 cx dx) (add_i32 cy dy) ≡ false
  unfolding enter_remote crosses_remote_to_local
  remote_clear s x y dx dy h hdx hdy = go s.edge refl
    where
      go :
          (e : Edge)
          → s.edge ≡ e
          → let (cx, cy) = enter_remote o s y x in
            crosses_remote_to_local s (add_i32 cx dx) (add_i32 cy dy) ≡ false
      go Edge.right e =
          let entry : (enter_remote o s y x).0 ≡ add_i32 s.remote.left s.inset =
            rw (e, enter_remote) in
          rw (e, crosses_remote_to_local)
            (rw entry
              (low_clear s.remote.left s.inset dx h.remote_screen.left_fits h.inset_fits hdx))
      go Edge.left e =
          let entry : (enter_remote o s y x).0 ≡ sub_i32 (sub_i32 s.remote.right (pos 1)) s.inset =
            rw (e, enter_remote) in
          rw (e, crosses_remote_to_local)
            (rw entry
              (high_clear s.remote.right s.inset dx h.remote_screen.right_fits h.inset_fits hdx))
      go Edge.top e =
          let entry : (enter_remote o s y x).1 ≡ sub_i32 (sub_i32 s.remote.bottom (pos 1)) s.inset =
            rw (e, enter_remote) in
          rw (e, crosses_remote_to_local)
            (rw entry
              (high_clear s.remote.bottom s.inset dy h.remote_screen.bottom_fits h.inset_fits hdy))
      go Edge.bottom e =
          let entry : (enter_remote o s y x).1 ≡ add_i32 s.remote.top s.inset =
            rw (e, enter_remote) in
          rw (e, crosses_remote_to_local)
            (rw entry (low_clear s.remote.top s.inset dy h.remote_screen.top_fits h.inset_fits hdy))

  local_clear :
      (s : CombinedSpace) (x y dx dy : ℤ)
      → IsSpace s
      → AtMost s.inset dx
      → AtMost s.inset dy
      → let (cx, cy) = enter_local o s y x in
        crosses_local_to_remote s (add_i32 cx dx) (add_i32 cy dy) ≡ false
  unfolding enter_local crosses_local_to_remote
  local_clear s x y dx dy h hdx hdy = go s.edge refl
    where
      go :
          (e : Edge)
          → s.edge ≡ e
          → let (cx, cy) = enter_local o s y x in
            crosses_local_to_remote s (add_i32 cx dx) (add_i32 cy dy) ≡ false
      go Edge.right e =
          let entry : (enter_local o s y x).0 ≡ sub_i32 (sub_i32 s.local.right (pos 1)) s.inset =
            rw (e, enter_local) in
          rw (e, crosses_local_to_remote)
            (rw entry
              (high_clear s.local.right s.inset dx h.local_screen.right_fits h.inset_fits hdx))
      go Edge.left e =
          let entry : (enter_local o s y x).0 ≡ add_i32 s.local.left s.inset =
            rw (e, enter_local) in
          rw (e, crosses_local_to_remote)
            (rw entry (low_clear s.local.left s.inset dx h.local_screen.left_fits h.inset_fits hdx))
      go Edge.top e =
          let entry : (enter_local o s y x).1 ≡ add_i32 s.local.top s.inset = rw (e, enter_local) in
          rw (e, crosses_local_to_remote)
            (rw entry (low_clear s.local.top s.inset dy h.local_screen.top_fits h.inset_fits hdy))
      go Edge.bottom e =
          let entry : (enter_local o s y x).1 ≡ sub_i32 (sub_i32 s.local.bottom (pos 1)) s.inset =
            rw (e, enter_local) in
          rw (e, crosses_local_to_remote)
            (rw entry
              (high_clear s.local.bottom s.inset dy h.local_screen.bottom_fits h.inset_fits hdy))

  entered_clear :
      (s : CombinedSpace) (r : Region) (x y dx dy : ℤ)
      → IsSpace s
      → AtMost s.inset dx
      → AtMost s.inset dy
      → let c = entered o s r x y in crosses s c.region (add_i32 c.x dx) (add_i32 c.y dy) ≡ false
  unfolding crosses entered enter_remote_at enter_local_at
  entered_clear s Region.local x y dx dy h hdx hdy = remote_clear s x y dx dy h hdx hdy
  entered_clear s Region.remote x y dx dy h hdx hdy = local_clear s x y dx dy h hdx hdy

  -- On a valid two-screen space, with coordinates in range and floats that obey IEEE 754, from a
  -- pixel of the active screen: after a delta that crossed, every delta of at most the inset in
  -- either direction stays on the screen that was entered.
  pub apply_delta_no_bounce :
      (s : CombinedSpace) (c : CursorState) (dx dy : ℤ) {c' : CursorState} (ex ey : ℤ)
      → IsSpace s
      → Inside (region_rect s c.region) c.x c.y
      → IsCoord dx
      → IsCoord dy
      → apply_delta o s c dx dy ≡ some (c', true)
      → AtMost s.inset ex
      → AtMost s.inset ey
      → (c'' : CursorState) × (apply_delta o s c' ex ey ≡ some (c'', false))
        × (c''.region ≡ c'.region)
  unfolding apply_delta
  apply_delta_no_bounce s c dx dy {c'} ex ey h i hdx hdy crossed hex hey =
      let nx : ℤ = add_i32 c.x dx in
      let ny : ℤ = add_i32 c.y dy in
      elim (Bool-cases (crosses s c.region nx ny)) [
        | inl over ↦
            let here : entered o s c.region nx ny ≡ c' =
              entry_of (step_crosses o s c.region nx ny over) crossed in
            (
              kept s c'.region (add_i32 c'.x ex) (add_i32 c'.y ey),
              step_keeps o s c'.region (add_i32 c'.x ex) (add_i32 c'.y ey) h
                  (rw here at (entered_clear s c.region nx ny ex ey h hex hey)),
              unfold kept in refl,
            )
        | inr within ↦ absurd (not_both (step_keeps o s c.region nx ny h within) crossed)
      ]
