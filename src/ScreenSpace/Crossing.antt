-- ===== src/ScreenSpace/Crossing.antt =====
-- `CombinedSpace::apply_delta`: it never panics on a valid space, and keeps the cursor on a pixel.
use tail_kvm.Base.{◌≡◌, refl, ◌≢◌, ◌↔◌, inl, inr, Bool, true, false, Bool-cases, some, arith}
use tail_kvm.Base.Int.{ℤ, pos, ◌≤ℤ◌, ◌+ℤ◌, +ℤ_parts}
use tail_kvm.Base.I32.{IsCoord, add_i32, sub_i32, clamp_value_same, add_i32_exact, i32_laws}
use tail_kvm.Float.{F64, IsIeee}
use tail_kvm.ScreenSpace.Types.{Rect, Region}
use tail_kvm.ScreenSpace.Mapping.{IsScreen, IsNear}
use tail_kvm.ScreenSpace.Combined.{
  CursorState, CombinedSpace, crosses_local_to_remote, crosses_remote_to_local, enter_remote_at,
  enter_local_at, step_region, apply_delta,
}
use tail_kvm.ScreenSpace.Bounds.{
  Inside, IsSpace, region_rect, nearest, clamp_rect-some, nearest-Inside, enter_remote-Inside,
  enter_local-Inside,
}

-- The outcome of a step, spelled out: the other screen at its entry point, or this one, clamped.
unfoldable pub crosses : CombinedSpace → Region → ℤ → ℤ → Bool
crosses s Region.local x y = crosses_local_to_remote s x y
crosses s Region.remote x y = crosses_remote_to_local s x y

unfoldable pub kept : CombinedSpace → Region → ℤ → ℤ → CursorState
kept s r x y = let (cx, cy) = nearest (region_rect s r) x y in record { region = r; x = cx; y = cy }

Inside-stays :
    (s : CombinedSpace) (r : Region) (x y : ℤ)
    → Inside (region_rect s r) x y
    → crosses s r x y ≡ false
unfolding crosses crosses_local_to_remote crosses_remote_to_local
Inside-stays s Region.local x y i = ground (arith, +ℤ_parts x (pos 1), +ℤ_parts y (pos 1))
Inside-stays s Region.remote x y i = ground (arith, +ℤ_parts x (pos 1), +ℤ_parts y (pos 1))

nearest_same : (r : Rect) (x y : ℤ) → IsScreen r → Inside r x y → nearest r x y ≡ (x, y)
nearest_same r x y h i = cc (
  clamp_value_same x r.left (sub_i32 r.right (pos 1)) (omega i32_laws) (omega i32_laws),
  clamp_value_same y r.top (sub_i32 r.bottom (pos 1)) (omega i32_laws) (omega i32_laws),
)

IsScreen-of : (s : CombinedSpace) (r : Region) → IsSpace s → IsScreen (region_rect s r)
IsScreen-of s Region.local h = h.local_screen
IsScreen-of s Region.remote h = h.remote_screen

kept_same :
    (s : CombinedSpace) (r : Region) (x y : ℤ)
    → IsScreen (region_rect s r)
    → Inside (region_rect s r) x y
    → kept s r x y ≡ record { region = r; x = x; y = y }
unfolding kept
kept_same s r x y h i = cc (nearest_same (region_rect s r) x y h i)

module _ (o : F64) where
  unfoldable pub entered : CombinedSpace → Region → ℤ → ℤ → CursorState
  entered s Region.local x y = enter_remote_at o s x y
  entered s Region.remote x y = enter_local_at o s x y

  pub step_crosses :
      (s : CombinedSpace) (r : Region) (x y : ℤ)
      → crosses s r x y ≡ true
      → step_region o s r x y ≡ some (entered s r x y, true)
  unfolding step_region crosses entered
  step_crosses s Region.local x y e = rw (e, step_region)
  step_crosses s Region.remote x y e = rw (e, step_region)

  pub step_keeps :
      (s : CombinedSpace) (r : Region) (x y : ℤ)
      → IsSpace s
      → crosses s r x y ≡ false
      → step_region o s r x y ≡ some (kept s r x y, false)
  unfolding step_region crosses kept
  step_keeps s Region.local x y h e =
      rw (e, step_region, clamp_rect-some s.local x y h.local_screen)
  step_keeps s Region.remote x y h e =
      rw (e, step_region, clamp_rect-some s.remote x y h.remote_screen)

  -- On a valid two-screen space, with coordinates in range, a delta from a pixel of the active
  -- screen to a pixel of it moves the cursor by exactly that delta.
  pub apply_delta_exact :
      (s : CombinedSpace) (c : CursorState) (dx dy : ℤ)
      → IsSpace s
      → Inside (region_rect s c.region) c.x c.y
      → IsCoord dx
      → IsCoord dy
      → Inside (region_rect s c.region) (c.x +ℤ dx) (c.y +ℤ dy)
      → apply_delta o s c dx dy
        ≡ some (record { region = c.region; x = c.x +ℤ dx; y = c.y +ℤ dy }, false)
  unfolding apply_delta
  apply_delta_exact s c dx dy h i hdx hdy inside =
      let screen = IsScreen-of s c.region h in
      rw (
        add_i32_exact c.x dx (omega i32_laws),
        add_i32_exact c.y dy (omega i32_laws),
        step_keeps s c.region (c.x +ℤ dx) (c.y +ℤ dy) h
            (Inside-stays s c.region (c.x +ℤ dx) (c.y +ℤ dy) inside),
        kept_same s c.region (c.x +ℤ dx) (c.y +ℤ dy) screen inside,
      )

module _ (o : F64) (law : IsIeee o) where
  entered-Inside :
      (s : CombinedSpace) (r : Region) (x y : ℤ)
      → IsSpace s
      → IsNear x
      → IsNear y
      → let c = entered o s r x y in Inside (region_rect s c.region) c.x c.y × (c.region ≢ r)
  unfolding entered enter_remote_at enter_local_at
  entered-Inside s Region.local x y h hx hy = (enter_remote-Inside o law s x y h hx hy, λ e. cc)
  entered-Inside s Region.remote x y h hx hy = (enter_local-Inside o law s x y h hx hy, λ e. cc)

  -- A delta from a pixel of the active screen leads to a position that an i32 holds.
  moved-IsNear :
      (lo hi a d : ℤ)
      → IsCoord lo
      → IsCoord hi
      → lo ≤ℤ a
      → a +ℤ pos 1 ≤ℤ hi
      → IsCoord d
      → IsNear (add_i32 a d)
  moved-IsNear lo hi a d hl hh low high hd = omega i32_laws

  near :
      (s : CombinedSpace) (c : CursorState) (dx dy : ℤ)
      → IsSpace s
      → Inside (region_rect s c.region) c.x c.y
      → IsCoord dx
      → IsCoord dy
      → IsNear (add_i32 c.x dx) × IsNear (add_i32 c.y dy)
  near s c dx dy h i hdx hdy =
      let screen = IsScreen-of s c.region h in
      let r = region_rect s c.region in
      (
        moved-IsNear r.left r.right c.x dx screen.left_fits screen.right_fits i.from_left i.to_right
            hdx,
        moved-IsNear r.top r.bottom c.y dy screen.top_fits screen.bottom_fits i.from_top i.to_bottom
            hdy,
      )

  -- What holds of an outcome of `apply_delta` that began in the region `r`.
  pub record Lands (s : CombinedSpace) (r : Region) (out : CursorState × Bool) : Type 0 where
    pub inside : Inside (region_rect s out.0.region) out.0.x out.0.y
    pub switched : (out.1 ≡ true) ↔ (out.0.region ≢ r)

  step-Lands :
      (s : CombinedSpace) (r : Region) (x y : ℤ)
      → IsSpace s
      → IsNear x
      → IsNear y
      → (out : CursorState × Bool) × (step_region o s r x y ≡ some out) × Lands s r out
  step-Lands s r x y h hx hy = elim (Bool-cases (crosses s r x y)) [
    | inl over ↦ (
      (entered o s r x y, true),
      step_crosses o s r x y over,
      record {
        inside = (entered-Inside s r x y h hx hy).0;
        switched = (λ _. (entered-Inside s r x y h hx hy).1, λ _. refl);
      },
    )
    | inr within ↦ (
      (kept s r x y, false),
      step_keeps o s r x y h within,
      record {
        inside = unfold kept in nearest-Inside (region_rect s r) x y (IsScreen-of s r h);
        switched = (λ e. cc, λ ne. absurd (ne (unfold kept in refl)));
      },
    )
  ]

  -- On a valid two-screen space, with coordinates in range and floats that obey IEEE 754, from a
  -- pixel of the active screen, apply_delta never panics; the new position is a pixel of the screen
  -- that is then active; and the flag is set exactly when the active screen has changed.
  pub apply_delta-Lands :
      (s : CombinedSpace) (c : CursorState) (dx dy : ℤ)
      → IsSpace s
      → Inside (region_rect s c.region) c.x c.y
      → IsCoord dx
      → IsCoord dy
      → (out : CursorState × Bool) × (apply_delta o s c dx dy ≡ some out) × Lands s c.region out
  unfolding apply_delta
  apply_delta-Lands s c dx dy h i hdx hdy =
      let (nx, ny) = near s c dx dy h i hdx hdy in
      step-Lands s c.region (add_i32 c.x dx) (add_i32 c.y dy) h nx ny
