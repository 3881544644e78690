-- ===== src/Core/Geometry.antt =====
-- Edge geometry, crates/tailkvm-core/src/geometry.rs: when the cursor is at an edge, where it enters
-- the remote screen and where it comes back. A clamp with an empty range panics; such a call is `none`.
pub mod Return
pub mod Entry
use Prim.Native.String.{String}
use text.Mathlib.Text.{◌==◌}
use tail_kvm.Base.{suc, ◌-◌, ◌/◌, Bool, true, false, ltb, Option, none, some, if◌then◌else◌}
use tail_kvm.Base.Int.{ℤ, pos, negsuc}
use tail_kvm.Base.I32.{add_i32, sub_i32, max_i32, clamp_i32, leb_ℤ}
use tail_kvm.Float.{F64}
use tail_kvm.Float.Ratio.{unit_ratio}

pub record Point : Type 0 where
  pub x : ℤ
  pub y : ℤ

-- A rectangle with its cached size.
pub record Rect : Type 0 where
  pub left : ℤ
  pub top : ℤ
  pub right : ℤ
  pub bottom : ℤ
  pub width : ℤ
  pub height : ℤ

unfoldable pub new : ℤ → ℤ → ℤ → ℤ → Rect
new left top right bottom = record {
  left = left;
  top = top;
  right = right;
  bottom = bottom;
  width = sub_i32 right left;
  height = sub_i32 bottom top;
}

-- The arms of `match edge`.
pub data Label : Type 0 where
  left right top bottom other : Label

unfoldable pub label_of : String → Label
label_of edge =
    if edge == "left"
    then Label.left
    else if edge == "right"
    then Label.right
    else if edge == "top"
    then Label.top
    else if edge == "bottom"
    then Label.bottom
    else other

-- A margin floored at 8.
abbrev pub floored : ℤ → ℤ
floored margin = max_i32 margin (pos 8)

abbrev pub low_edge : ℤ → ℤ → ℤ → Bool
low_edge a lo margin = leb_ℤ a (add_i32 lo margin)

abbrev pub high_edge : ℤ → ℤ → ℤ → Bool
high_edge a hi margin = leb_ℤ (sub_i32 (sub_i32 hi (pos 1)) margin) a

unfoldable pub at_return_edge : Label → ℤ → ℤ → ℤ → ℤ → ℤ → Bool
at_return_edge Label.right x y margin width height = leb_ℤ x margin
at_return_edge Label.left x y margin width height = high_edge x width margin
at_return_edge Label.top x y margin width height = high_edge y height margin
at_return_edge Label.bottom x y margin width height = leb_ℤ y margin
at_return_edge Label.other x y margin width height = leb_ℤ x margin

unfoldable pub is_remote_return_edge : ℤ → ℤ → String → ℤ → ℤ → ℤ → Bool
unfolding label_of at_return_edge
is_remote_return_edge x y switch_edge edge_margin remote_width remote_height =
    at_return_edge (label_of switch_edge) x y (floored edge_margin) (max_i32 remote_width (pos 1))
      (max_i32 remote_height (pos 1))

unfoldable pub at_edge : Label → Point → Rect → ℤ → Bool
at_edge Label.left p r margin = low_edge p.x r.left margin
at_edge Label.right p r margin = high_edge p.x r.right margin
at_edge Label.top p r margin = low_edge p.y r.top margin
at_edge Label.bottom p r margin = high_edge p.y r.bottom margin
at_edge Label.other p r margin = high_edge p.x r.right margin

unfoldable pub is_cursor_at_edge : Point → Rect → String → ℤ → Bool
unfolding label_of at_edge
is_cursor_at_edge position rect edge margin = at_edge (label_of edge) position rect margin

-- `n / 2` on i32, which truncates toward zero.
pub half_i32 : ℤ → ℤ
half_i32 (pos n) = pos (n / 2)
half_i32 (negsuc n) = if ltb 0 (suc n / 2) then negsuc (suc n / 2 - 1) else pos 0

module _ (o : F64) where
  -- `((length - 1) as f64 * ratio).round() as i32`, at the ratio of an offset to a size.
  unfoldable pub along : ℤ → ℤ → ℤ → ℤ
  along offset size length =
      o.round_i32
        (o.mul (o.of_i32 (sub_i32 length (pos 1))) (unit_ratio o offset (max_i32 size (pos 1))))

  unfoldable pub entry : Label → Point → Rect → ℤ → ℤ → Point
  unfolding along half_i32
  entry Label.left p r w h = record {
    x = sub_i32 (sub_i32 w (pos 1)) (pos 4);
    y = along (sub_i32 p.y r.top) r.height h;
  }
  entry Label.right p r w h = record { x = pos 4; y = along (sub_i32 p.y r.top) r.height h }
  entry Label.top p r w h = record {
    x = along (sub_i32 p.x r.left) r.width w;
    y = sub_i32 (sub_i32 h (pos 1)) (pos 4);
  }
  entry Label.bottom p r w h = record { x = along (sub_i32 p.x r.left) r.width w; y = pos 4 }
  entry Label.other p r w h = record { x = pos 4; y = half_i32 h }

  unfoldable pub remote_entry_position : Point → Rect → String → ℤ → ℤ → Point
  unfolding label_of entry
  remote_entry_position position local_rect edge remote_width remote_height =
      entry (label_of edge) position local_rect remote_width remote_height

-- `a.clamp(lo + margin, hi - 1 - margin)`
abbrev pub clamp_between : ℤ → ℤ → ℤ → ℤ → Option ℤ
clamp_between a lo hi margin = clamp_i32 a (add_i32 lo margin) (sub_i32 (sub_i32 hi (pos 1)) margin)

abbrev with_y : ℤ → Option ℤ → Option Point
with_y x none = none
with_y x (some y) = some (record { x = x; y = y })

abbrev with_x : ℤ → Option ℤ → Option Point
with_x y none = none
with_x y (some x) = some (record { x = x; y = y })

unfoldable pub returned : Label → Point → Rect → ℤ → Option Point
unfolding clamp_i32
returned Label.left p r margin =
    with_y (add_i32 r.left margin) (clamp_between p.y r.top r.bottom margin)
returned Label.right p r margin =
    with_y (sub_i32 (sub_i32 r.right (pos 1)) margin) (clamp_between p.y r.top r.bottom margin)
returned Label.top p r margin =
    with_x (add_i32 r.top margin) (clamp_between p.x r.left r.right margin)
returned Label.bottom p r margin =
    with_x (sub_i32 (sub_i32 r.bottom (pos 1)) margin) (clamp_between p.x r.left r.right margin)
returned Label.other p r margin =
    with_y (sub_i32 (sub_i32 r.right (pos 1)) margin) (clamp_between p.y r.top r.bottom margin)

unfoldable pub local_return_position : Point → Rect → String → ℤ → Option Point
unfolding label_of returned
local_return_position position rect edge margin =
    returned (label_of edge) position rect (floored margin)
