-- ===== src/Ime/Tests.antt =====
-- A short life of the composition mode, and an anchor past the corner of a monitor.
use tail_kvm.Base.{◌≡◌, true, false, List, [], ◌∷◌}
use tail_kvm.Base.Int.{pos, negsuc, ◌≤ℤ◌}
use tail_kvm.Base.I32.{i32_laws}
use tail_kvm.Float.Fixed.{fixed, fixed-IsIeee}
use tail_kvm.Ime.Projection.{project_remote_to_local, project_remote_to_local_within}
use tail_kvm.Ime.Mode.{
  ImeEvent, toggled, entry_failed, observed, off, is_on, is_composing, react_all, on_after,
  composes_after, react_all_lem,
}

abbrev events : List ImeEvent
events = toggled ∷ observed true ∷ entry_failed ∷ toggled ∷ observed true ∷ []

react_all_lem_example :
    (is_on (react_all off events) ≡ on_after false events)
    × (is_composing (react_all off events) ≡ composes_after false false events)
react_all_lem_example = react_all_lem events

project_remote_to_local_within_example :
    let p =
      project_remote_to_local fixed
        (pos 640)
        (pos 9999)
        (pos 1280)
        (pos 720)
        (negsuc 1919, pos 200, pos 0, pos 1280) in
    (negsuc 1919 ≤ℤ p.0) × (p.0 ≤ℤ pos 0) × (pos 200 ≤ℤ p.1) × (p.1 ≤ℤ pos 1280)
project_remote_to_local_within_example =
    project_remote_to_local_within fixed fixed-IsIeee (pos 640) (pos 9999) (pos 1280) (pos 720)
      (negsuc 1919) (pos 200) (pos 0) (pos 1280) (omega i32_laws) (omega i32_laws) (omega i32_laws)
      (omega i32_laws) (omega i32_laws) (omega i32_laws) (omega i32_laws) (omega i32_laws)
      (omega i32_laws) (omega i32_laws)
