-- ===== src/LayoutGraph/Total.antt =====
-- `MultiScreenSpace::apply_delta` and `enter_neighbor` of crates/tailkvm-win32/src/layout_graph.rs
-- wherever the cursor is: no panic on valid screens, and which screen the outcome is on.
use Prim.Native.String.{String}
use tail_kvm.Base.{◌≡◌, refl, inl, inr, Option, none, some, Option-cases, arith}
use tail_kvm.Base.Int.{ℤ}
use tail_kvm.Base.I32.{add_i32}
use tail_kvm.Float.{F64}
use tail_kvm.ScreenSpace.Types.{Rect, Edge}
use tail_kvm.ScreenSpace.Bounds.{nearest, clamp_rect-some}
use tail_kvm.LayoutGraph.Space.{
  ScreenCursor, ScreenSwitch, MultiScreenSpace, rect, neighbor, crossed, stay, move, apply_delta,
  entered, enter_neighbor,
}
use tail_kvm.LayoutGraph.Moves.{IsSpace}

-- Without a switch the cursor is on the screen it was on.
abbrev pub Keeps : String → ScreenCursor × Option ScreenSwitch → Type 0
Keeps screen (c, none) = c.screen ≡ screen
Keeps screen (c, some _) = Unit {0}

module _ (o : F64) where
  stay_total :
      (s : MultiScreenSpace) (screen : String) (r : Rect) (x y : ℤ)
      → IsSpace s
      → rect s screen ≡ some r
      → (out : ScreenCursor × Option ScreenSwitch) × (stay o r screen x y ≡ some out)
        × Keeps screen out
  unfolding stay
  stay_total s screen r x y h known =
      let (cx, cy) = nearest r x y in
      (
        (record { screen = screen; x = cx; y = cy }, none),
        rw (clamp_rect-some r x y (h.screen_ok screen r known).0, stay),
        refl,
      )

  move_total :
      (s : MultiScreenSpace) (screen : String) (r : Rect) (x y : ℤ)
      → IsSpace s
      → rect s screen ≡ some r
      → (out : ScreenCursor × Option ScreenSwitch) × (move o s r screen x y ≡ some out)
        × Keeps screen out
  unfolding move
  move_total s screen r x y h known =
      let still = stay_total s screen r x y h known in
      elim (Option-cases (crossed r x y)) [
        | inl within ↦ (still.0, rw (within, move) still.1, still.2)
        | inr (edge, over) ↦ elim (Option-cases (neighbor s screen edge)) [
          | inl lone ↦ (still.0, rw (over, lone, move) still.1, still.2)
          | inr (name, across) ↦ elim (Option-cases (rect s name)) [
            | inl unknown ↦ (still.0, rw (over, across, unknown, move) still.1, still.2)
            | inr (nb, known') ↦ (
              (entered o s r name nb edge x y, some (record { from = screen; to = name })),
              rw (over, across, known', move),
              tt,
            )
          ]
        ]
      ]

  -- On valid screens apply_delta never panics, wherever the cursor is and whatever the delta.
  pub apply_delta_total :
      (s : MultiScreenSpace) (c : ScreenCursor) (dx dy : ℤ)
      → IsSpace s
      → (out : ScreenCursor × Option ScreenSwitch) × (apply_delta o s c dx dy ≡ some out)
        × Keeps c.screen out
  unfolding apply_delta
  apply_delta_total s c dx dy h = elim (Option-cases (rect s c.screen)) [
    | inl unknown ↦ ((c, none), rw (unknown, apply_delta), refl)
    | inr (r, known) ↦
        let moved = move_total s c.screen r (add_i32 c.x dx) (add_i32 c.y dy) h known in
        (moved.0, rw (known, apply_delta) moved.1, moved.2)
  ]

  -- The screen that is entered is the neighbour.
  pub enter_neighbor-neighbor :
      (s : MultiScreenSpace) (screen : String) (edge : Edge) (x y : ℤ) {c : ScreenCursor}
      → enter_neighbor o s screen edge x y ≡ some c
      → neighbor s screen edge ≡ some c.screen
  unfolding enter_neighbor entered
  enter_neighbor-neighbor s screen edge x y h = ground arith
