-- ===== src/ScreenSpace/Bounds.antt =====
-- Where the logical cursor of `CombinedSpace` can be: every delta leaves it on a pixel of the screen
-- that it is on, and a crossing puts it `inset` pixels away from the edge that it came through.
use tail_kvm.Base.{◌≡◌, refl, some, arith}
use tail_kvm.Base.Int.{ℤ, pos, ◌≤ℤ◌, ◌+ℤ◌}
use tail_kvm.Base.I32.{IsCoord, sub_i32, clamp_value, clamp_i32-some, clamp_value_within, i32_laws}
use tail_kvm.Float.{F64, IsIeee}
use tail_kvm.ScreenSpace.Types.{Rect, width, height, Region, Edge}
use tail_kvm.ScreenSpace.Mapping.{IsScreen, IsNear, width_parts, height_parts, map_ratio_bounds}
use tail_kvm.ScreenSpace.Combined.{
  CombinedSpace, clamp_rect, map_x, map_y, enter_remote, enter_local,
}

-- The pixel (x, y) belongs to the rectangle.
pub record Inside (r : Rect) (x y : ℤ) : Type 0 where
  pub from_left : r.left ≤ℤ x
  pub to_right : x +ℤ pos 1 ≤ℤ r.right
  pub from_top : r.top ≤ℤ y
  pub to_bottom : y +ℤ pos 1 ≤ℤ r.bottom

-- The inset leaves room on a screen in both directions.
pub record HasRoom (inset : ℤ) (r : Rect) : Type 0 where
  pub across : r.left +ℤ inset +ℤ pos 1 ≤ℤ r.right
  pub down : r.top +ℤ inset +ℤ pos 1 ≤ℤ r.bottom

pub record IsSpace (s : CombinedSpace) : Type 0 where
  pub local_screen : IsScreen s.local
  pub remote_screen : IsScreen s.remote
  pub inset_nonneg : pos 0 ≤ℤ s.inset
  pub inset_fits : IsCoord s.inset
  pub local_room : HasRoom s.inset s.local
  pub remote_room : HasRoom s.inset s.remote

abbrev pub region_rect : CombinedSpace → Region → Rect
region_rect s Region.local = s.local
region_rect s Region.remote = s.remote

-- The pixel of a screen that a position is clamped to.
abbrev pub nearest : Rect → ℤ → ℤ → ℤ × ℤ
nearest r x y =
    (clamp_value x r.left (sub_i32 r.right (pos 1)), clamp_value y r.top (sub_i32 r.bottom (pos 1)))

pub clamp_rect-some : (r : Rect) (x y : ℤ) → IsScreen r → clamp_rect r x y ≡ some (nearest r x y)
unfolding clamp_rect
clamp_rect-some r x y h = ground (
  arith,
  clamp_i32-some x r.left (sub_i32 r.right (pos 1)) (omega i32_laws),
  clamp_i32-some y r.top (sub_i32 r.bottom (pos 1)) (omega i32_laws),
)

pub nearest-Inside :
    (r : Rect) (x y : ℤ) → IsScreen r → Inside r (nearest r x y).0 (nearest r x y).1
nearest-Inside r x y h = omega (
  i32_laws,
  clamp_value_within x r.left (sub_i32 r.right (pos 1)) (omega i32_laws),
  clamp_value_within y r.top (sub_i32 r.bottom (pos 1)) (omega i32_laws),
)

module _ (o : F64) (law : IsIeee o) where
  pub map_y_inside :
      (from to : Rect) (y : ℤ)
      → IsScreen from
      → IsScreen to
      → IsNear y
      → (to.top ≤ℤ map_y o from to y) × (map_y o from to y +ℤ pos 1 ≤ℤ to.bottom)
  unfolding map_y
  map_y_inside from to y hf ht hy = omega (
    i32_laws,
    height_parts from hf,
    height_parts to ht,
    map_ratio_bounds o law y from.top (height from) to.top (height to),
  )

  pub map_x_inside :
      (from to : Rect) (x : ℤ)
      → IsScreen from
      → IsScreen to
      → IsNear x
      → (to.left ≤ℤ map_x o from to x) × (map_x o from to x +ℤ pos 1 ≤ℤ to.right)
  unfolding map_x
  map_x_inside from to x hf ht hx = omega (
    i32_laws,
    width_parts from hf,
    width_parts to ht,
    map_ratio_bounds o law x from.left (width from) to.left (width to),
  )

  -- Entering through an edge puts the cursor on the other screen, off that edge by the inset.
  pub enter_remote-Inside :
      (s : CombinedSpace) (x y : ℤ)
      → IsSpace s
      → IsNear x
      → IsNear y
      → Inside s.remote (enter_remote o s y x).0 (enter_remote o s y x).1
  unfolding enter_remote
  enter_remote-Inside s x y h hx hy = go s.edge refl
    where
      go :
          (e : Edge)
          → s.edge ≡ e
          → Inside s.remote (enter_remote o s y x).0 (enter_remote o s y x).1
      go Edge.right e = rw (e, enter_remote) (omega (i32_laws, map_y_inside s.local s.remote y))
      go Edge.left e = rw (e, enter_remote) (omega (i32_laws, map_y_inside s.local s.remote y))
      go Edge.top e = rw (e, enter_remote) (omega (i32_laws, map_x_inside s.local s.remote x))
      go Edge.bottom e = rw (e, enter_remote) (omega (i32_laws, map_x_inside s.local s.remote x))

  pub enter_local-Inside :
      (s : CombinedSpace) (x y : ℤ)
      → IsSpace s
      → IsNear x
      → IsNear y
      → Inside s.local (enter_local o s y x).0 (enter_local o s y x).1
  unfolding enter_local
  enter_local-Inside s x y h hx hy = go s.edge refl
    where
      go : (e : Edge) → s.edge ≡ e → Inside s.local (enter_local o s y x).0 (enter_local o s y x).1
      go Edge.right e = rw (e, enter_local) (omega (i32_laws, map_y_inside s.remote s.local y))
      go Edge.left e = rw (e, enter_local) (omega (i32_laws, map_y_inside s.remote s.local y))
      go Edge.top e = rw (e, enter_local) (omega (i32_laws, map_x_inside s.remote s.local x))
      go Edge.bottom e = rw (e, enter_local) (omega (i32_laws, map_x_inside s.remote s.local x))
