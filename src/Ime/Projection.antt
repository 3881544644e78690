-- ===== src/Ime/Projection.antt =====
-- `project_remote_to_local` of crates/tailkvm-win32/src/ime_anchor.rs: a remote cursor position on the
-- local rectangle.
use tail_kvm.Base.{◌/◌, ◌≡◌, ap, inl, inr, ◌||◌, Bool-cases, arith, if◌then◌else◌}
use tail_kvm.Base.Int.{ℤ, pos, pos_part, ◌≤ℤ◌, ◌+ℤ◌, +ℤ_parts}
use tail_kvm.Base.I32.{
  IsI32, IsCoord, add_i32, sub_i32, max_i32, leb_ℤ, add_i32_parts, sub_i32_parts,
}
use tail_kvm.Float.{F64, IsIeee}
use tail_kvm.Float.Ratio.{unit_ratio, scale, image_bounds}
use tail_kvm.Ime.Anchor.{AnchorRect}

-- `n / 2` on an i32 that is at least 1.
abbrev half : ℤ → ℤ
half n = pos (pos_part n / 2)

-- `(to - from).max(1)`
abbrev extent : ℤ → ℤ → ℤ
extent from to = max_i32 (sub_i32 to from) (pos 1)

module _ (o : F64) where
  -- `(len as f64 * ratio).round() as i32`
  pub share : ℤ → o.Carrier → ℤ
  share len ratio = o.round_i32 (o.mul (o.of_i32 len) ratio)

  unfoldable pub project_remote_to_local : ℤ → ℤ → ℤ → ℤ → AnchorRect → ℤ × ℤ
  unfolding share
  project_remote_to_local remote_x remote_y remote_width remote_height (left, top, right, bottom) =
      let local_w = extent left right in
      let local_h = extent top bottom in
      if leb_ℤ remote_width (pos 0) || leb_ℤ remote_height (pos 0)
      then (add_i32 left (half local_w), add_i32 top (half local_h))
      else (
        add_i32 left (share local_w (unit_ratio o remote_x remote_width)),
        add_i32 top (share local_h (unit_ratio o remote_y remote_height)),
      )

module _ (o : F64) (law : IsIeee o) where
  share-scale : (len : ℤ) (ratio : o.Carrier) → share o len ratio ≡ scale o ratio len
  unfolding share scale
  share-scale len ratio = ap o.round_i32 (law.mul_comm (o.of_i32 len) ratio)

  share_bounds :
      (a n from to : ℤ)
      → IsI32 a
      → IsI32 n
      → pos 1 ≤ℤ n
      → IsCoord from
      → IsCoord to
      → (pos 0 ≤ℤ share o (extent from to) (unit_ratio o a n))
        × (share o (extent from to) (unit_ratio o a n) ≤ℤ extent from to)
  share_bounds a n from to ha hn h hf ht = rw (share-scale (extent from to) (unit_ratio o a n)) (
      image_bounds o law a n (extent from to) ha hn (ground (arith, sub_i32_parts to from)) h
        (ground arith))

  -- One coordinate of the answer lies between the bounds of the local rectangle, also where the remote
  -- size is degenerate and its middle is taken.
  along :
      (a n from to : ℤ)
      → IsI32 a
      → IsI32 n
      → IsCoord from
      → IsCoord to
      → from +ℤ pos 1 ≤ℤ to
      → (pos 1 ≤ℤ n
          → let v = add_i32 from (share o (extent from to) (unit_ratio o a n)) in
            (from ≤ℤ v) × (v ≤ℤ to))
        × (let v = add_i32 from (half (extent from to)) in (from ≤ℤ v) × (v ≤ℤ to))
  along a n from to ha hn hf ht wide =
      let len =
        sub_i32_parts to from (ground (arith, +ℤ_parts from (pos 1)))
          (ground (arith, +ℤ_parts from (pos 1))) in
      (
        λ h.
            let k = share_bounds a n from to ha hn h hf ht in
            ground (
              arith,
              len,
              +ℤ_parts from (pos 1),
              add_i32_parts from (share o (extent from to) (unit_ratio o a n)),
              k,
            ),
        ground (arith, len, +ℤ_parts from (pos 1), add_i32_parts from (half (extent from to))),
      )

  -- For a local rectangle of at least one pixel with coordinates in range, and floats that obey IEEE 754,
  -- the projection lies within the bounds of the rectangle, the right and lower ones included, whatever
  -- the remote position, and also where the remote size is not positive.
  pub project_remote_to_local_within :
      (x y w h left top right bottom : ℤ)
      → IsI32 x
      → IsI32 y
      → IsI32 w
      → IsI32 h
      → IsCoord left
      → IsCoord top
      → IsCoord right
      → IsCoord bottom
      → left +ℤ pos 1 ≤ℤ right
      → top +ℤ pos 1 ≤ℤ bottom
      → let p = project_remote_to_local o x y w h (left, top, right, bottom) in
        (left ≤ℤ p.0) × (p.0 ≤ℤ right) × (top ≤ℤ p.1) × (p.1 ≤ℤ bottom)
  unfolding project_remote_to_local
  project_remote_to_local_within x y w h left top right bottom hx hy hw hh hl ht hr hb wide tall =
      let (in_x, mid_x) = along x w left right hx hw hl hr wide in
      let (in_y, mid_y) = along y h top bottom hy hh ht hb tall in
      elim (Bool-cases (leb_ℤ w (pos 0) || leb_ℤ h (pos 0))) [
        | inl flat ↦ rw flat (mid_x.0, mid_x.1, mid_y.0, mid_y.1)
        | inr real ↦
            let px = in_x (ground arith) in
            let py = in_y (ground arith) in rw real (px.0, px.1, py.0, py.1)
      ]
