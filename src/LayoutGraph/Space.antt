-- ===== src/LayoutGraph/Space.antt =====
-- `MultiScreenSpace` of crates/tailkvm-win32/src/layout_graph.rs. An i32 `clamp` with an empty range
-- panics; such a call is `none`.
use Prim.Native.String.{String}
use tail_kvm.Base.{Option, none, some, List, if◌then◌else◌}
use tail_kvm.Base.Int.{ℤ, pos, ltb_ℤ}
use tail_kvm.Base.I32.{add_i32, sub_i32, leb_ℤ}
use tail_kvm.Base.Dict
use tail_kvm.Base.Dict.{string_eq}
use tail_kvm.Float.{F64}
use tail_kvm.ScreenSpace.Types.{Rect, width, height, Edge, map_ratio}
use tail_kvm.ScreenSpace.Combined.{clamp_rect}
use tail_kvm.LayoutGraph.Graph
use tail_kvm.LayoutGraph.Graph.{LayoutGraph}

pub record ScreenCursor : Type 0 where
  pub screen : String
  pub x : ℤ
  pub y : ℤ

pub record ScreenSwitch : Type 0 where
  pub from : String
  pub to : String

pub record MultiScreenSpace : Type 0 where
  pub screens : List (String × Rect)
  pub graph : LayoutGraph
  pub inset : ℤ

unfoldable pub new : List (String × Rect) → LayoutGraph → MultiScreenSpace
new screens graph = record { screens = screens; graph = graph; inset = pos 2 }

unfoldable pub rect : MultiScreenSpace → String → Option Rect
rect s screen = Dict.lookup screen s.screens

unfoldable pub neighbor : MultiScreenSpace → String → Edge → Option String
unfolding Graph.neighbor
neighbor s screen edge = Graph.neighbor s.graph screen edge

-- The crossed edge, in the order right, left, top, bottom.
unfoldable pub crossed : Rect → ℤ → ℤ → Option Edge
crossed r nx ny =
    if leb_ℤ r.right nx
    then some Edge.right
    else if ltb_ℤ nx r.left
    then some Edge.left
    else if ltb_ℤ ny r.top
    then some Edge.top
    else if leb_ℤ r.bottom ny
    then some Edge.bottom
    else none

module _ (o : F64) where
  -- The entry point in `nb` when leaving `from` across `edge`.
  unfoldable pub enter : ℤ → Rect → Rect → Edge → ℤ → ℤ → ℤ × ℤ
  unfolding map_ratio width height
  enter inset from nb Edge.right exit_x exit_y =
      (add_i32 nb.left inset, map_ratio o exit_y from.top (height from) nb.top (height nb))
  enter inset from nb Edge.left exit_x exit_y = (
    sub_i32 (sub_i32 nb.right (pos 1)) inset,
    map_ratio o exit_y from.top (height from) nb.top (height nb),
  )
  enter inset from nb Edge.top exit_x exit_y = (
    map_ratio o exit_x from.left (width from) nb.left (width nb),
    sub_i32 (sub_i32 nb.bottom (pos 1)) inset,
  )
  enter inset from nb Edge.bottom exit_x exit_y =
      (map_ratio o exit_x from.left (width from) nb.left (width nb), add_i32 nb.top inset)

  -- The cursor on the neighbour `nb` across `edge`.
  unfoldable pub entered : MultiScreenSpace → Rect → String → Rect → Edge → ℤ → ℤ → ScreenCursor
  unfolding enter
  entered s from name nb edge exit_x exit_y =
      let (x, y) = enter s.inset from nb edge exit_x exit_y in
      record { screen = name; x = x; y = y }

  -- `?` on each lookup.
  unfoldable pub enter_neighbor : MultiScreenSpace → String → Edge → ℤ → ℤ → Option ScreenCursor
  unfolding rect neighbor entered
  enter_neighbor s screen edge exit_x exit_y = elim (rect s screen) [
    | none ↦ none
    | some from ↦ elim (neighbor s screen edge) [
      | none ↦ none
      | some name ↦ elim (rect s name) [
        | none ↦ none
        | some nb ↦ some (entered s from name nb edge exit_x exit_y)
      ]
    ]
  ]

  -- No crossing, or no neighbour: the position is clamped to the current screen.
  unfoldable pub stay : Rect → String → ℤ → ℤ → Option (ScreenCursor × Option ScreenSwitch)
  unfolding clamp_rect
  stay r screen nx ny = elim (clamp_rect r nx ny) [
    | none ↦ none
    | some (cx, cy) ↦ some (record { screen = screen; x = cx; y = cy }, none)
  ]

  -- The outcome at the moved position (nx, ny) of a cursor on `screen`, whose rectangle is `r`.
  unfoldable pub move :
      MultiScreenSpace → Rect → String → ℤ → ℤ → Option (ScreenCursor × Option ScreenSwitch)
  unfolding crossed neighbor rect entered stay
  move s r screen nx ny = elim (crossed r nx ny) [
    | none ↦ stay r screen nx ny
    | some edge ↦ elim (neighbor s screen edge) [
      | none ↦ stay r screen nx ny
      | some name ↦ elim (rect s name) [
        | none ↦ stay r screen nx ny
        | some nb ↦
            some (entered s r name nb edge nx ny, some (record { from = screen; to = name }))
      ]
    ]
  ]

  -- A cursor on an unknown screen does not move.
  unfoldable pub apply_delta :
      MultiScreenSpace → ScreenCursor → ℤ → ℤ → Option (ScreenCursor × Option ScreenSwitch)
  unfolding rect move
  apply_delta s c dx dy = elim (rect s c.screen) [
    | none ↦ some (c, none)
    | some r ↦ move s r c.screen (add_i32 c.x dx) (add_i32 c.y dy)
  ]
