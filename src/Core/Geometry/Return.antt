-- ===== src/Core/Geometry/Return.antt =====
-- Where the local cursor comes back.
use Prim.Native.String.{String}
use tail_kvm.Base.{◌≡◌, Option, some, arith}
use tail_kvm.Base.Int.{ℤ, pos, ◌≤ℤ◌, ◌+ℤ◌}
use tail_kvm.Base.I32.{
  IsCoord, add_i32, sub_i32, clamp_value, clamp_i32-some, clamp_value_within, add_i32_parts,
  sub_i32_parts, leb_ℤ, i32_laws,
}
use tail_kvm.Core.Geometry.{
  Point, Rect, Label, label_of, floored, low_edge, high_edge, at_edge, is_cursor_at_edge,
  clamp_between, returned, local_return_position,
}

-- The point is a pixel of the rectangle.
pub record IsIn (r : Rect) (p : Point) : Type 0 where
  pub from_left : r.left ≤ℤ p.x
  pub to_right : p.x +ℤ pos 1 ≤ℤ r.right
  pub from_top : r.top ≤ℤ p.y
  pub to_bottom : p.y +ℤ pos 1 ≤ℤ r.bottom

-- The rectangle has room for the floored margin on both sides, in both directions.
pub record HasMargins (r : Rect) (margin : ℤ) : Type 0 where
  pub left_fits : IsCoord r.left
  pub top_fits : IsCoord r.top
  pub right_fits : IsCoord r.right
  pub bottom_fits : IsCoord r.bottom
  pub margin_fits : IsCoord margin
  pub wide : r.left +ℤ floored margin +ℤ floored margin +ℤ pos 1 ≤ℤ r.right
  pub tall : r.top +ℤ floored margin +ℤ floored margin +ℤ pos 1 ≤ℤ r.bottom

floored_fits : (m : ℤ) → IsCoord m → IsCoord (floored m) × (pos 8 ≤ℤ floored m)
floored_fits m h = ground arith

-- What a clamp between the margins answers.
clamp_between-some :
    (a lo hi m : ℤ)
    → IsCoord lo
    → IsCoord hi
    → IsCoord m
    → pos 0 ≤ℤ m
    → lo +ℤ m +ℤ m +ℤ pos 1 ≤ℤ hi
    → (v : ℤ) × (clamp_between a lo hi m ≡ some v) × (lo ≤ℤ v) × (v +ℤ pos 1 ≤ℤ hi)
clamp_between-some a lo hi m hl hh hm h0 room =
    let low : ℤ = add_i32 lo m in
    let high : ℤ = sub_i32 (sub_i32 hi (pos 1)) m in
    let fits : low ≤ℤ high =
      omega (i32_laws, sub_i32_parts hi (pos 1), sub_i32_parts (sub_i32 hi (pos 1)) m) in
    (
      clamp_value a low high,
      clamp_i32-some a low high fits,
      omega (i32_laws, clamp_value_within a low high fits),
      omega (
        i32_laws,
        clamp_value_within a low high fits,
        sub_i32_parts hi (pos 1),
        sub_i32_parts (sub_i32 hi (pos 1)) m,
      ),
    )

low_again :
    (lo m : ℤ) → IsCoord lo → IsCoord m → low_edge (add_i32 lo (floored m)) lo m ≡ leb_ℤ (pos 8) m
low_again lo m hl hm = ground (arith, add_i32_parts lo m, add_i32_parts lo (floored m))

high_again :
    (hi m : ℤ)
    → IsCoord hi
    → IsCoord m
    → high_edge (sub_i32 (sub_i32 hi (pos 1)) (floored m)) hi m ≡ leb_ℤ (pos 8) m
high_again hi m hh hm = ground (
  arith,
  sub_i32_parts hi (pos 1),
  sub_i32_parts (sub_i32 hi (pos 1)) m,
  sub_i32_parts (sub_i32 hi (pos 1)) (floored m),
)

-- What holds of the answer of `local_return_position`: a pixel of the rectangle, which is at the edge
-- again exactly when the margin is 8 or more.
Returns : Label → Rect → ℤ → Option Point → Type 0
Returns l r margin answer =
    (p : Point) × (answer ≡ some p) × IsIn r p × (at_edge l p r margin ≡ leb_ℤ (pos 8) margin)

returned_lem :
    (l : Label) (p : Point) (r : Rect) (margin : ℤ)
    → HasMargins r margin
    → Returns l r margin (returned l p r (floored margin))
unfolding Returns returned at_edge
returned_lem Label.left p r margin h =
    let fits = floored_fits margin h.margin_fits in
    let (y, e, low, high) =
      clamp_between-some p.y r.top r.bottom (floored margin) h.top_fits h.bottom_fits fits.0
        (omega arith) h.tall in
    (
      record { x = add_i32 r.left (floored margin); y = y },
      rw e,
      omega (i32_laws, fits),
      low_again r.left margin h.left_fits h.margin_fits,
    )
returned_lem Label.right p r margin h =
    let fits = floored_fits margin h.margin_fits in
    let (y, e, low, high) =
      clamp_between-some p.y r.top r.bottom (floored margin) h.top_fits h.bottom_fits fits.0
        (omega arith) h.tall in
    (
      record { x = sub_i32 (sub_i32 r.right (pos 1)) (floored margin); y = y },
      rw e,
      omega (i32_laws, fits),
      high_again r.right margin h.right_fits h.margin_fits,
    )
returned_lem Label.top p r margin h =
    let fits = floored_fits margin h.margin_fits in
    let (x, e, low, high) =
      clamp_between-some p.x r.left r.right (floored margin) h.left_fits h.right_fits fits.0
        (omega arith) h.wide in
    (
      record { x = x; y = add_i32 r.top (floored margin) },
      rw e,
      omega (i32_laws, fits),
      low_again r.top margin h.top_fits h.margin_fits,
    )
returned_lem Label.bottom p r margin h =
    let fits = floored_fits margin h.margin_fits in
    let (x, e, low, high) =
      clamp_between-some p.x r.left r.right (floored margin) h.left_fits h.right_fits fits.0
        (omega arith) h.wide in
    (
      record { x = x; y = sub_i32 (sub_i32 r.bottom (pos 1)) (floored margin) },
      rw e,
      omega (i32_laws, fits),
      high_again r.bottom margin h.bottom_fits h.margin_fits,
    )
returned_lem Label.other p r margin h =
    let fits = floored_fits margin h.margin_fits in
    let (y, e, low, high) =
      clamp_between-some p.y r.top r.bottom (floored margin) h.top_fits h.bottom_fits fits.0
        (omega arith) h.tall in
    (
      record { x = sub_i32 (sub_i32 r.right (pos 1)) (floored margin); y = y },
      rw e,
      omega (i32_laws, fits),
      high_again r.right margin h.right_fits h.margin_fits,
    )

-- On a rectangle with coordinates in range and room for the floored margin on both sides,
-- local_return_position does not panic and answers a pixel of the rectangle; is_cursor_at_edge
-- holds there exactly when the margin is 8 or more.
pub local_return_position_lem :
    (p : Point) (r : Rect) (edge : String) (margin : ℤ)
    → HasMargins r margin
    → (q : Point) × (local_return_position p r edge margin ≡ some q)
      × IsIn r q
      × (is_cursor_at_edge q r edge margin ≡ leb_ℤ (pos 8) margin)
unfolding local_return_position is_cursor_at_edge Returns
local_return_position_lem p r edge margin h = returned_lem (label_of edge) p r margin h
