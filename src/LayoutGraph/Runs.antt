-- ===== src/LayoutGraph/Runs.antt =====
-- Sequences of deltas in `MultiScreenSpace`, and the entry point after a switch.
use tail_kvm.Base.{◌≡◌, refl, ◌≢◌, Option, none, some, List, [], ◌∷◌, arith}
use tail_kvm.Base.Int.{ℤ, pos, ◌≤ℤ◌}
use tail_kvm.Base.I32.{IsCoord, add_i32}
use tail_kvm.Float.{F64, IsIeee}
use tail_kvm.ScreenSpace.Types.{Rect, Edge, opposite}
use tail_kvm.ScreenSpace.Mapping.{IsScreen}
use tail_kvm.ScreenSpace.Bounds.{HasRoom}
use tail_kvm.ScreenSpace.Bounce.{AtMost, low_clear, high_clear}
use tail_kvm.LayoutGraph.Space.{ScreenCursor, MultiScreenSpace, crossed, enter, apply_delta}
use tail_kvm.LayoutGraph.Moves.{IsSpace, OnScreen, apply_delta-Follows}

abbrev pub AllCoords : List (ℤ × ℤ) → Type 0
AllCoords [] = Unit
AllCoords ((dx, dy) ∷ ds) = IsCoord dx × IsCoord dy × AllCoords ds

module _ (o : F64) where
  -- A sequence of deltas, as the router feeds them; a panic ends it.
  pub apply_deltas : MultiScreenSpace → ScreenCursor → List (ℤ × ℤ) → Option ScreenCursor
  apply_deltas s c [] = some c
  apply_deltas s c ((dx, dy) ∷ ds) = elim (apply_delta o s c dx dy) [
    | none ↦ none
    | some (c', _) ↦ apply_deltas s c' ds
  ]

module _ (o : F64) (law : IsIeee o) where
  -- On valid screens, with coordinates in range and floats that obey IEEE 754, from a pixel of a
  -- known screen, no sequence of deltas panics, and the cursor ends on a pixel of a known screen.
  pub apply_deltas-OnScreen :
      (s : MultiScreenSpace) (c : ScreenCursor) (ds : List (ℤ × ℤ))
      → IsSpace s
      → OnScreen s c
      → AllCoords ds
      → (c' : ScreenCursor) × (apply_deltas o s c ds ≡ some c') × OnScreen s c'
  unfolding apply_deltas
  apply_deltas-OnScreen s c [] h on fits = (c, refl, on)
  apply_deltas-OnScreen s c ((dx, dy) ∷ ds) h on (hx, hy, fits) =
      let (out, step, on', _) = apply_delta-Follows o law s c dx dy h on hx hy in
      let (c', rest, on'') = apply_deltas-OnScreen s out.0 ds h on' fits in
      (c', rw (step, apply_deltas) rest, on'')

-- After entering, across an edge, a screen with coordinates in range and room for a nonnegative
-- inset, a delta of at most the inset in either direction is not read as a crossing of the edge
-- that leads back.
pub enter_no_bounce :
    (o : F64) (inset : ℤ) (from nb : Rect) (edge : Edge) (x y dx dy : ℤ)
    → IsCoord inset
    → pos 0 ≤ℤ inset
    → IsScreen nb
    → HasRoom inset nb
    → AtMost inset dx
    → AtMost inset dy
    → let (cx, cy) = enter o inset from nb edge x y in
      crossed nb (add_i32 cx dx) (add_i32 cy dy) ≢ some (opposite edge)
unfolding enter crossed opposite
enter_no_bounce o inset from nb Edge.right x y dx dy hi h0 ok room hx hy e =
    ground (arith, low_clear nb.left inset dx ok.left_fits hi hx)
enter_no_bounce o inset from nb Edge.left x y dx dy hi h0 ok room hx hy e =
    ground (arith, high_clear nb.right inset dx ok.right_fits hi hx)
enter_no_bounce o inset from nb Edge.top x y dx dy hi h0 ok room hx hy e =
    ground (arith, high_clear nb.bottom inset dy ok.bottom_fits hi hy)
enter_no_bounce o inset from nb Edge.bottom x y dx dy hi h0 ok room hx hy e =
    ground (arith, low_clear nb.top inset dy ok.top_fits hi hy)
