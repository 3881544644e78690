-- ===== src/ScreenSpace/Tests.antt =====
-- Two screens side by side, with a cursor near the shared edge, and a peer with two monitors: the
-- cases that crates/tailkvm-win32/src/screen_space.rs is used for.
use tail_kvm.Base.{◌≡◌, refl, ◌⊎◌, Bool, true, false, some, List, [], ◌∷◌, if◌then◌else◌, ltb}
use tail_kvm.Base.Int.{pos, negsuc, ◌≤ℤ◌, ◌+ℤ◌}
use tail_kvm.Base.I32.{add_i32, sub_i32, i32_laws}
use tail_kvm.Float.Fixed.{fixed, fixed-IsIeee, div_fixed, mul_fixed, round_fixed}
use tail_kvm.Float.Ratio.{scale, unit_ratio}
use tail_kvm.ScreenSpace.Types.{Rect, local, remote, Edge}
use tail_kvm.ScreenSpace.Combined
use tail_kvm.ScreenSpace.Combined.{CombinedSpace, CursorState, apply_delta}
use tail_kvm.ScreenSpace.Mapping.{IsScreen, map_ratio_bounds}
use tail_kvm.ScreenSpace.Bounds.{IsSpace}
use tail_kvm.ScreenSpace.Crossing.{Lands, apply_delta-Lands}
use tail_kvm.ScreenSpace.Bounce.{apply_delta_no_bounce}
use tail_kvm.ScreenSpace.Guard
use tail_kvm.ScreenSpace.Guard.{updates, streak_fires, updates-new}
use tail_kvm.ScreenSpace.Clamp.{Monitor, clamp_to_rects}
use tail_kvm.ScreenSpace.Clamp.Distance.{OnMonitors, AllDegenerate, IsNearest}
use tail_kvm.ScreenSpace.Clamp.Nearest.{clamp_to_rects-IsNearest}

abbrev desk : Rect
desk = record { left = pos 0; top = pos 0; right = pos 1920; bottom = pos 1080 }

abbrev laptop : Rect
laptop = record { left = pos 0; top = pos 0; right = pos 1366; bottom = pos 768 }

abbrev side_by_side : CombinedSpace
side_by_side = record { local = desk; remote = laptop; edge = Edge.right; inset = pos 2 }

abbrev at_edge : CursorState
at_edge = record { region = local; x = pos 1919; y = pos 540 }

abbrev in_middle : CursorState
in_middle = record { region = local; x = pos 900; y = pos 540 }

abbrev on_laptop : CursorState
on_laptop = record { region = remote; x = pos 2; y = pos 384 }

desk-IsScreen : IsScreen desk
desk-IsScreen = omega i32_laws

laptop-IsScreen : IsScreen laptop
laptop-IsScreen = omega i32_laws

side_by_side-IsSpace : IsSpace side_by_side
side_by_side-IsSpace = omega i32_laws

map_ratio_bounds_example :
    let m = Combined.map_ratio fixed (pos 540) (pos 0) (pos 1080) (pos 0) (pos 768) in
    (pos 0 ≤ℤ m) × (m +ℤ pos 1 ≤ℤ pos 0 +ℤ pos 768)
map_ratio_bounds_example =
    map_ratio_bounds fixed fixed-IsIeee (pos 540) (pos 0) (pos 1080) (pos 0) (pos 768)
      (omega i32_laws) (omega i32_laws) (omega i32_laws) (omega i32_laws) (omega i32_laws)

apply_delta-Lands_example :
    (out : CursorState × Bool) × (apply_delta fixed side_by_side at_edge (pos 5) (pos 0) ≡ some out)
    × Lands fixed fixed-IsIeee side_by_side local out
apply_delta-Lands_example =
    apply_delta-Lands fixed fixed-IsIeee side_by_side at_edge (pos 5) (pos 0) side_by_side-IsSpace
      (omega i32_laws) (omega i32_laws) (omega i32_laws)

crossing : apply_delta fixed side_by_side at_edge (pos 5) (pos 0) ≡ some (on_laptop, true)
unfolding apply_delta add_i32 scale unit_ratio fixed div_fixed mul_fixed round_fixed sub_i32
crossing = refl

apply_delta_no_bounce_example :
    (c : CursorState) × (apply_delta fixed side_by_side on_laptop (negsuc 1) (pos 0)
      ≡ some (c, false))
    × (c.region ≡ remote)
apply_delta_no_bounce_example =
    apply_delta_no_bounce fixed fixed-IsIeee side_by_side at_edge (pos 5) (pos 0) (negsuc 1) (pos 0)
      side_by_side-IsSpace (omega i32_laws) (omega i32_laws) (omega i32_laws) crossing
      (omega i32_laws) (omega i32_laws)

abbrev ticks : List (Bool × Bool)
ticks = (true, false) ∷ (true, false) ∷ (false, false) ∷ (true, false) ∷ (true, true) ∷ []

updates-new_example :
    updates (Guard.new 30 15) ticks ≡ streak_fires 30 (if ltb 15 1 then 1 else 15) 0 ticks
updates-new_example = updates-new 30 15 ticks (omega i32_laws)

abbrev monitors : List Monitor
monitors = (pos 0, pos 0, pos 1920, pos 1080) ∷ (pos 1920, pos 200, pos 3200, pos 924) ∷ []

clamp_to_rects-IsNearest_example :
    (OnMonitors monitors (clamp_to_rects (pos 2500) (pos 50) monitors)
      ⊎ (AllDegenerate monitors
          × (clamp_to_rects (pos 2500) (pos 50) monitors ≡ (pos 2500, pos 50))))
    × IsNearest (pos 2500) (pos 50) monitors (clamp_to_rects (pos 2500) (pos 50) monitors)
clamp_to_rects-IsNearest_example =
    clamp_to_rects-IsNearest (pos 2500) (pos 50) monitors (omega i32_laws) (omega i32_laws)
      (omega i32_laws)
