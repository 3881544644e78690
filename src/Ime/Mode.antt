-- ===== src/Ime/Mode.antt =====
-- `ImeModeState` of apps/tailkvm-ui/src-tauri/src/ime_mode.rs.
use Prim.Native.String.{String}
use tail_kvm.Base.{◌≡◌, refl, Bool, true, false, not, List, [], ◌∷◌, if◌then◌else◌}

pub data ImeModeState : Type 0 where
  off armed composing suspended : ImeModeState

unfoldable pub as_str : ImeModeState → String
as_str off = "off"
as_str armed = "armed"
as_str composing = "composing"
as_str suspended = "suspended"

unfoldable pub is_on : ImeModeState → Bool
is_on armed = true
is_on composing = true
is_on _ = false

unfoldable pub on_toggle : ImeModeState → ImeModeState
on_toggle off = armed
on_toggle suspended = armed
on_toggle armed = off
on_toggle composing = off

unfoldable pub observe_composition : ImeModeState → Bool → ImeModeState
observe_composition armed true = composing
observe_composition composing false = armed
observe_composition state _ = state

unfoldable pub on_entry_failure : ImeModeState → ImeModeState
on_entry_failure _ = suspended

-- What can happen to the mode.
pub data ImeEvent : Type 0 where
  toggled entry_failed : ImeEvent
  observed : Bool → ImeEvent

unfoldable pub react : ImeModeState → ImeEvent → ImeModeState
unfolding on_toggle observe_composition on_entry_failure
react s toggled = on_toggle s
react s entry_failed = on_entry_failure s
react s (observed c) = observe_composition s c

unfoldable pub react_all : ImeModeState → List ImeEvent → ImeModeState
unfolding react
react_all s [] = s
react_all s (e ∷ es) = react_all (react s e) es

-- The specification: the mode is on after an odd number of toggles since the start or the last failed
-- entry, and it composes if, while on, a composition was seen last.
pub on_after : Bool → List ImeEvent → Bool
on_after on [] = on
on_after on (toggled ∷ es) = on_after (not on) es
on_after on (entry_failed ∷ es) = on_after false es
on_after on (observed _ ∷ es) = on_after on es

pub composes_after : Bool → Bool → List ImeEvent → Bool
composes_after on seen [] = seen
composes_after on seen (toggled ∷ es) = composes_after (not on) false es
composes_after on seen (entry_failed ∷ es) = composes_after false false es
composes_after on seen (observed c ∷ es) = composes_after on (if on then c else false) es

abbrev pub is_composing : ImeModeState → Bool
is_composing composing = true
is_composing _ = false

is_on-react_all :
    (s : ImeModeState) (es : List ImeEvent)
    → (is_on (react_all s es) ≡ on_after (is_on s) es)
      × (is_composing (react_all s es) ≡ composes_after (is_on s) (is_composing s) es)
unfolding is_on react_all on_after composes_after
is_on-react_all s [] = (refl, refl)
is_on-react_all off (toggled ∷ es) = is_on-react_all armed es
is_on-react_all armed (toggled ∷ es) = is_on-react_all off es
is_on-react_all composing (toggled ∷ es) = is_on-react_all off es
is_on-react_all suspended (toggled ∷ es) = is_on-react_all armed es
is_on-react_all s (entry_failed ∷ es) = is_on-react_all suspended es
is_on-react_all off (observed c ∷ es) = is_on-react_all off es
is_on-react_all armed (observed true ∷ es) = is_on-react_all composing es
is_on-react_all armed (observed false ∷ es) = is_on-react_all armed es
is_on-react_all composing (observed true ∷ es) = is_on-react_all composing es
is_on-react_all composing (observed false ∷ es) = is_on-react_all armed es
is_on-react_all suspended (observed c ∷ es) = is_on-react_all suspended es

-- From the start, after any sequence of toggles, failed entries and observations: the mode is on
-- exactly after an odd number of toggles since the start or the last failed entry; and the state is
-- `composing` exactly if a composition was seen last since the mode went on.
pub react_all_lem :
    (es : List ImeEvent)
    → (is_on (react_all off es) ≡ on_after false es)
      × (is_composing (react_all off es) ≡ composes_after false false es)
unfolding is_on
react_all_lem es = is_on-react_all off es
