-- ===== src/ScreenSpace/Combined.antt =====
-- `CombinedSpace` of crates/tailkvm-win32/src/screen_space.rs: one logical cursor over the local
-- and one remote screen. An i32 `clamp` with an empty range panics; such a call is `none`.
use tail_kvm.Base.{Bool, true, false, Option, none, some, if◌then◌else◌}
use tail_kvm.Base.Int.{ℤ, pos, ltb_ℤ}
use tail_kvm.Base.I32.{add_i32, sub_i32, max_i32, leb_ℤ, clamp_i32}
use tail_kvm.Float.{F64}
use tail_kvm.Float.Ratio.{unit_ratio, scale}
use tail_kvm.ScreenSpace.Types.{Rect, width, height, Region, local, remote, Edge}

pub record CursorState : Type 0 where
  pub region : Region
  pub x : ℤ
  pub y : ℤ

pub record CombinedSpace : Type 0 where
  pub local : Rect
  pub remote : Rect
  pub edge : Edge
  pub inset : ℤ

unfoldable pub new : Rect → Rect → Edge → CombinedSpace
new l r e = record { local = l; remote = r; edge = e; inset = pos 2 }

-- `CombinedSpace::map_ratio`, which takes the length as it is.
unfoldable pub map_ratio : F64 → ℤ → ℤ → ℤ → ℤ → ℤ → ℤ
map_ratio o value from_lo from_len to_lo to_len =
    let ratio = unit_ratio o (sub_i32 value from_lo) from_len in
    add_i32 to_lo (scale o ratio (max_i32 (sub_i32 to_len (pos 1)) (pos 0)))

-- The pair `(x.clamp(..), y.clamp(..))` onto a rectangle.
unfoldable pub clamp_rect : Rect → ℤ → ℤ → Option (ℤ × ℤ)
unfolding clamp_i32
clamp_rect r x y = elim (clamp_i32 x r.left (sub_i32 r.right (pos 1))) [
  | none ↦ none
  | some cx ↦ elim (clamp_i32 y r.top (sub_i32 r.bottom (pos 1))) [
    | none ↦ none
    | some cy ↦ some (cx, cy)
  ]
]

unfoldable pub clamp_local : CombinedSpace → ℤ → ℤ → Option (ℤ × ℤ)
unfolding clamp_rect
clamp_local s x y = clamp_rect s.local x y

unfoldable pub clamp_remote : CombinedSpace → ℤ → ℤ → Option (ℤ × ℤ)
unfolding clamp_rect
clamp_remote s x y = clamp_rect s.remote x y

unfoldable pub crosses_local_to_remote : CombinedSpace → ℤ → ℤ → Bool
crosses_local_to_remote s nx ny = elim s.edge [
  | Edge.right ↦ leb_ℤ s.local.right nx
  | Edge.left ↦ ltb_ℤ nx s.local.left
  | Edge.top ↦ ltb_ℤ ny s.local.top
  | Edge.bottom ↦ leb_ℤ s.local.bottom ny
]

unfoldable pub crosses_remote_to_local : CombinedSpace → ℤ → ℤ → Bool
crosses_remote_to_local s nx ny = elim s.edge [
  | Edge.right ↦ ltb_ℤ nx s.remote.left
  | Edge.left ↦ leb_ℤ s.remote.right nx
  | Edge.top ↦ leb_ℤ s.remote.bottom ny
  | Edge.bottom ↦ ltb_ℤ ny s.remote.top
]

module _ (o : F64) where
  -- The two perpendicular mappings that `enter_remote` and `enter_local` write out.
  unfoldable pub map_y : Rect → Rect → ℤ → ℤ
  unfolding map_ratio height
  map_y from to y = map_ratio o y from.top (height from) to.top (height to)

  unfoldable pub map_x : Rect → Rect → ℤ → ℤ
  unfolding map_ratio width
  map_x from to x = map_ratio o x from.left (width from) to.left (width to)

  unfoldable pub enter_remote : CombinedSpace → ℤ → ℤ → ℤ × ℤ
  unfolding map_x map_y
  enter_remote s local_y local_x = elim s.edge [
    | Edge.right ↦ (add_i32 s.remote.left s.inset, map_y s.local s.remote local_y)
    | Edge.left ↦ (sub_i32 (sub_i32 s.remote.right (pos 1)) s.inset, map_y s.local s.remote local_y)
    | Edge.top ↦ (map_x s.local s.remote local_x, sub_i32 (sub_i32 s.remote.bottom (pos 1)) s.inset)
    | Edge.bottom ↦ (map_x s.local s.remote local_x, add_i32 s.remote.top s.inset)
  ]

  unfoldable pub enter_local : CombinedSpace → ℤ → ℤ → ℤ × ℤ
  unfolding map_x map_y
  enter_local s remote_y remote_x = elim s.edge [
    | Edge.right ↦
        (sub_i32 (sub_i32 s.local.right (pos 1)) s.inset, map_y s.remote s.local remote_y)
    | Edge.left ↦ (add_i32 s.local.left s.inset, map_y s.remote s.local remote_y)
    | Edge.top ↦ (map_x s.remote s.local remote_x, add_i32 s.local.top s.inset)
    | Edge.bottom ↦
        (map_x s.remote s.local remote_x, sub_i32 (sub_i32 s.local.bottom (pos 1)) s.inset)
  ]

  unfoldable pub enter_remote_at : CombinedSpace → ℤ → ℤ → CursorState
  unfolding enter_remote
  enter_remote_at s local_x local_y =
      let (x, y) = enter_remote s local_y local_x in record { region = remote; x = x; y = y }

  unfoldable pub enter_local_at : CombinedSpace → ℤ → ℤ → CursorState
  unfolding enter_local
  enter_local_at s remote_x remote_y =
      let (x, y) = enter_local s remote_y remote_x in record { region = local; x = x; y = y }

  -- A cursor that stays in its region, at its clamped position.
  unfoldable pub stay : Region → Option (ℤ × ℤ) → Option (CursorState × Bool)
  stay region none = none
  stay region (some (cx, cy)) = some (record { region = region; x = cx; y = cy }, false)

  -- The `match state.region` of `apply_delta`, at the moved position.
  unfoldable pub step_region : CombinedSpace → Region → ℤ → ℤ → Option (CursorState × Bool)
  unfolding stay clamp_local clamp_remote crosses_local_to_remote crosses_remote_to_local
      enter_remote_at enter_local_at
  step_region s local nx ny =
      if crosses_local_to_remote s nx ny
      then some (enter_remote_at s nx ny, true)
      else stay local (clamp_local s nx ny)
  step_region s remote nx ny =
      if crosses_remote_to_local s nx ny
      then some (enter_local_at s nx ny, true)
      else stay remote (clamp_remote s nx ny)

  -- The new state, and whether the cursor crossed to the other screen.
  unfoldable pub apply_delta : CombinedSpace → CursorState → ℤ → ℤ → Option (CursorState × Bool)
  unfolding step_region
  apply_delta s state dx dy = step_region s state.region (add_i32 state.x dx) (add_i32 state.y dy)
