-- ===== src/Core/Tests.antt =====
-- A history of raw deltas for the freshness gate, and a pair of screens, crates/tailkvm-core/src.
use tail_kvm.Base.{◌≡◌, List, [], ◌∷◌}
use tail_kvm.Base.Int.{ℤ, pos, negsuc}
use tail_kvm.Base.{true, some}
use tail_kvm.Base.I32.{leb_ℤ, i32_laws}
use tail_kvm.Float.Fixed.{fixed, fixed-IsIeee}
use tail_kvm.Core.Geometry.{
  Point, Rect, is_cursor_at_edge, is_remote_return_edge, local_return_position,
  remote_entry_position,
}
use tail_kvm.Core.Geometry.Return.{IsIn, HasMargins, local_return_position_lem}
use tail_kvm.Core.Geometry.Entry.{remote_entry_position_lem}
use tail_kvm.Core.PushGate
use tail_kvm.Core.PushGate.{Instant}

abbrev history : List (ℤ × ℤ × Instant)
history = (pos 5, pos 0, 1000000) ∷ (negsuc 2, pos 1, 200000000) ∷ []

abbrev desk : Rect
desk = record {
  left = pos 0;
  top = pos 0;
  right = pos 1920;
  bottom = pos 1080;
  width = pos 1920;
  height = pos 1080;
}

abbrev at_right : Point
at_right = record { x = pos 1919; y = pos 540 }

desk-HasMargins : HasMargins desk (pos 3)
desk-HasMargins = omega i32_laws

local_return_position_lem_example :
    (q : Point) × (local_return_position at_right desk "right" (pos 3) ≡ some q)
    × IsIn desk q
    × (is_cursor_at_edge q desk "right" (pos 3) ≡ leb_ℤ (pos 8) (pos 3))
local_return_position_lem_example =
    local_return_position_lem at_right desk "right" (pos 3) desk-HasMargins

abbrev laptop : Rect
laptop = record {
  left = pos 0;
  top = pos 0;
  right = pos 1366;
  bottom = pos 768;
  width = pos 1366;
  height = pos 768;
}

remote_entry_position_lem_example :
    let q = remote_entry_position fixed at_right desk "right" (pos 1366) (pos 768) in
    IsIn laptop q × (is_remote_return_edge q.x q.y "right" (pos 3) (pos 1366) (pos 768) ≡ true)
remote_entry_position_lem_example =
    remote_entry_position_lem fixed fixed-IsIeee at_right desk "right" (pos 1366) (pos 768) (pos 3)
      (omega i32_laws) (omega i32_laws) (omega i32_laws) (omega i32_laws)
