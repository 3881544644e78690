-- ===== src/LayoutGraph/Moves.antt =====
-- `MultiScreenSpace::apply_delta`: it never panics on valid screens, keeps the cursor on a pixel of a
-- known screen, switches only along a link, and does not bounce back over it.
use Prim.Native.String.{String}
use tail_kvm.Base.{◌≡◌, refl, inl, inr, Option, none, some, Option-cases}
use tail_kvm.Base.Int.{ℤ, pos, ◌≤ℤ◌, ◌+ℤ◌}
use tail_kvm.Base.I32.{IsCoord, add_i32, i32_laws}
use tail_kvm.Float.{F64, IsIeee}
use tail_kvm.ScreenSpace.Types.{Rect, width, height, Edge, map_ratio}
use tail_kvm.ScreenSpace.Mapping.{
  IsScreen, IsNear, IsScreen-IsLength, width_parts, height_parts, map_ratio_bounds,
  map_ratio-map_ratio,
}
use tail_kvm.ScreenSpace.Bounds.{Inside, HasRoom, nearest, clamp_rect-some, nearest-Inside}
use tail_kvm.LayoutGraph.Space.{
  ScreenCursor, ScreenSwitch, MultiScreenSpace, rect, neighbor, crossed, enter, entered, stay, move,
  apply_delta,
}

-- Every screen has a pixel and room for the inset.
pub record IsSpace (s : MultiScreenSpace) : Type 0 where
  pub inset_nonneg : pos 0 ≤ℤ s.inset
  pub inset_fits : IsCoord s.inset
  pub screen_ok : (name : String) (r : Rect) → rect s name ≡ some r → IsScreen r × HasRoom s.inset r

-- The cursor is on a pixel of a known screen.
abbrev pub OnScreen : MultiScreenSpace → ScreenCursor → Type 0
OnScreen s c = (r : Rect) × (rect s c.screen ≡ some r) × Inside r c.x c.y

near :
    (lo hi a d : ℤ)
    → IsCoord lo
    → IsCoord hi
    → lo ≤ℤ a
    → a +ℤ pos 1 ≤ℤ hi
    → IsCoord d
    → IsNear (add_i32 a d)
near lo hi a d hl hh low high hd = omega i32_laws

module _ (o : F64) (law : IsIeee o) where
  along_y :
      (from to : Rect) (y : ℤ)
      → IsScreen from
      → IsScreen to
      → IsNear y
      → let m = map_ratio o y from.top (height from) to.top (height to) in
        (to.top ≤ℤ m) × (m +ℤ pos 1 ≤ℤ to.bottom)
  along_y from to y hf ht hy =
      let lf = (IsScreen-IsLength from hf).1 in
      let inside =
        map_ratio_bounds o law y from.top (height from) to.top (height to) hy hf.top_fits lf
          ht.top_fits (IsScreen-IsLength to ht).1 in
      rw (map_ratio-map_ratio o y from.top (height from) to.top (height to) lf.0)
        (omega (i32_laws, height_parts to ht, inside))

  along_x :
      (from to : Rect) (x : ℤ)
      → IsScreen from
      → IsScreen to
      → IsNear x
      → let m = map_ratio o x from.left (width from) to.left (width to) in
        (to.left ≤ℤ m) × (m +ℤ pos 1 ≤ℤ to.right)
  along_x from to x hf ht hx =
      let lf = (IsScreen-IsLength from hf).0 in
      let inside =
        map_ratio_bounds o law x from.left (width from) to.left (width to) hx hf.left_fits lf
          ht.left_fits (IsScreen-IsLength to ht).0 in
      rw (map_ratio-map_ratio o x from.left (width from) to.left (width to) lf.0)
        (omega (i32_laws, width_parts to ht, inside))

  enter-Inside :
      (inset : ℤ) (from nb : Rect) (edge : Edge) (x y : ℤ)
      → IsCoord inset
      → pos 0 ≤ℤ inset
      → HasRoom inset nb
      → IsScreen from
      → IsScreen nb
      → IsNear x
      → IsNear y
      → let (cx, cy) = enter o inset from nb edge x y in Inside nb cx cy
  unfolding enter
  enter-Inside inset from nb Edge.right x y hi h0 room hf hn hx hy =
      omega (i32_laws, along_y from nb y hf hn hy)
  enter-Inside inset from nb Edge.left x y hi h0 room hf hn hx hy =
      omega (i32_laws, along_y from nb y hf hn hy)
  enter-Inside inset from nb Edge.top x y hi h0 room hf hn hx hy =
      omega (i32_laws, along_x from nb x hf hn hx)
  enter-Inside inset from nb Edge.bottom x y hi h0 room hf hn hx hy =
      omega (i32_laws, along_x from nb x hf hn hx)

  -- Either no switch, and the cursor is on its screen; or a switch along a link of the graph.
  abbrev pub Follows : MultiScreenSpace → String → ScreenCursor × Option ScreenSwitch → Type 0
  Follows s screen (c, none) = c.screen ≡ screen
  Follows s screen (c, some w) =
      (w.from ≡ screen) × (w.to ≡ c.screen) × ((e : Edge) × (neighbor s screen e ≡ some c.screen))

  stay_lands :
      (s : MultiScreenSpace) (screen : String) (r : Rect) (x y : ℤ)
      → IsSpace s
      → rect s screen ≡ some r
      → (out : ScreenCursor × Option ScreenSwitch) × (stay o r screen x y ≡ some out)
        × OnScreen s out.0
        × Follows s screen out
  unfolding stay
  stay_lands s screen r x y h known =
      let ok = (h.screen_ok screen r known).0 in
      let (cx, cy) = nearest r x y in
      (
        (record { screen = screen; x = cx; y = cy }, none),
        rw (clamp_rect-some r x y ok, stay),
        (r, known, nearest-Inside r x y ok),
        refl,
      )

  -- The outcome across an edge that has a neighbour with a rectangle.
  switch_lands :
      (s : MultiScreenSpace) (screen name : String) (r nb : Rect) (edge : Edge) (x y : ℤ)
      → IsSpace s
      → rect s screen ≡ some r
      → neighbor s screen edge ≡ some name
      → rect s name ≡ some nb
      → IsNear x
      → IsNear y
      → OnScreen s (entered o s r name nb edge x y)
        × Follows s screen
            (entered o s r name nb edge x y, some (record { from = screen; to = name }))
  unfolding entered
  switch_lands s screen name r nb edge x y h known across known' hx hy =
      let (ok, room) = h.screen_ok name nb known' in
      (
        (
          nb,
          known',
          enter-Inside s.inset r nb edge x y h.inset_fits h.inset_nonneg room
              (h.screen_ok screen r known).0 ok hx hy,
        ),
        (refl, refl, (edge, across)),
      )

  move_lands :
      (s : MultiScreenSpace) (screen : String) (r : Rect) (x y : ℤ)
      → IsSpace s
      → rect s screen ≡ some r
      → IsNear x
      → IsNear y
      → (out : ScreenCursor × Option ScreenSwitch) × (move o s r screen x y ≡ some out)
        × OnScreen s out.0
        × Follows s screen out
  unfolding move
  move_lands s screen r x y h known hx hy =
      let still = stay_lands s screen r x y h known in
      elim (Option-cases (crossed r x y)) [
        | inl within ↦ (still.0, rw (within, move) still.1, still.2, still.3)
        | inr (edge, over) ↦ elim (Option-cases (neighbor s screen edge)) [
          | inl lone ↦ (still.0, rw (over, lone, move) still.1, still.2, still.3)
          | inr (name, across) ↦ elim (Option-cases (rect s name)) [
            | inl unknown ↦ (still.0, rw (over, across, unknown, move) still.1, still.2, still.3)
            | inr (nb, known') ↦
                let lands = switch_lands s screen name r nb edge x y h known across known' hx hy in
                (
                  (entered o s r name nb edge x y, some (record { from = screen; to = name })),
                  rw (over, across, known', move),
                  lands.0,
                  lands.1,
                )
          ]
        ]
      ]

  -- On valid screens, with coordinates in range and floats that obey IEEE 754, from a pixel of a
  -- known screen, apply_delta never panics: the new position is a pixel of a known screen, which is
  -- the old one if no switch is reported, and otherwise the neighbour across an edge of the old
  -- one, as the switch says.
  pub apply_delta-Follows :
      (s : MultiScreenSpace) (c : ScreenCursor) (dx dy : ℤ)
      → IsSpace s
      → OnScreen s c
      → IsCoord dx
      → IsCoord dy
      → (out : ScreenCursor × Option ScreenSwitch) × (apply_delta o s c dx dy ≡ some out)
        × OnScreen s out.0
        × Follows s c.screen out
  unfolding apply_delta
  apply_delta-Follows s c dx dy h (r, known, i) hdx hdy =
      let ok = (h.screen_ok c.screen r known).0 in
      let lands =
        move_lands s c.screen r (add_i32 c.x dx) (add_i32 c.y dy) h known
          (near r.left r.right c.x dx ok.left_fits ok.right_fits i.from_left i.to_right hdx)
          (near r.top r.bottom c.y dy ok.top_fits ok.bottom_fits i.from_top i.to_bottom hdy) in
      (lands.0, rw (known, apply_delta) lands.1, lands.2, lands.3)
