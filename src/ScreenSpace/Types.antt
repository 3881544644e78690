-- ===== src/ScreenSpace/Types.antt =====
-- Rectangles, edges and the proportional mapping of crates/tailkvm-win32/src/screen_space.rs.
use Prim.Native.String.{String}
use text.Mathlib.Text.{◌==◌}
use tail_kvm.Base.{if◌then◌else◌}
use tail_kvm.Base.Int.{ℤ, pos}
use tail_kvm.Base.I32.{add_i32, sub_i32, max_i32}
use tail_kvm.Float.{F64}
use tail_kvm.Float.Ratio.{unit_ratio, scale}

pub record Rect : Type 0 where
  pub left : ℤ
  pub top : ℤ
  pub right : ℤ
  pub bottom : ℤ

unfoldable pub width : Rect → ℤ
width r = max_i32 (sub_i32 r.right r.left) (pos 1)

unfoldable pub height : Rect → ℤ
height r = max_i32 (sub_i32 r.bottom r.top) (pos 1)

pub data Region : Type 0 where
  local remote : Region

pub data Edge : Type 0 where
  left right top bottom : Edge

-- `Edge::from_label`
unfoldable pub from_label : String → Edge
from_label value =
    if value == "left"
    then Edge.left
    else if value == "top"
    then Edge.top
    else if value == "bottom"
    then Edge.bottom
    else Edge.right

unfoldable pub opposite : Edge → Edge
opposite Edge.left = Edge.right
opposite Edge.right = Edge.left
opposite Edge.top = Edge.bottom
opposite Edge.bottom = Edge.top

-- The `map_ratio` that the N-screen model uses: the length is floored at 1 here.
unfoldable pub map_ratio : F64 → ℤ → ℤ → ℤ → ℤ → ℤ → ℤ
map_ratio o value from_lo from_len to_lo to_len =
    let ratio = unit_ratio o (sub_i32 value from_lo) (max_i32 from_len (pos 1)) in
    add_i32 to_lo (scale o ratio (max_i32 (sub_i32 to_len (pos 1)) (pos 0)))
