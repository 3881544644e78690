-- ===== src/LayoutGraph/Tests.antt =====
-- A main screen with a laptop to its right, as crates/tailkvm-win32/src/layout_graph.rs lays it out.
use Prim.Native.String.{String}
use tail_kvm.Base.{
  ◌≡◌, refl, ◌≢◌, inl, inr, ◌⊎◌, Bool, true, false, Option, none, some, List, [], ◌∷◌,
  if◌then◌else◌,
}
use tail_kvm.Base.Int.{ℤ, pos, negsuc}
use tail_kvm.Base.I32.{add_i32, i32_laws}
use tail_kvm.Base.Dict
use tail_kvm.Base.Dict.{string_eq}
use tail_kvm.Float.Fixed.{fixed, fixed-IsIeee}
use tail_kvm.ScreenSpace.Types.{Rect, Edge, opposite}
use tail_kvm.ScreenSpace.Mapping.{IsScreen}
use tail_kvm.ScreenSpace.Bounds.{HasRoom}
use tail_kvm.LayoutGraph.Graph
use tail_kvm.LayoutGraph.Graph.{LayoutGraph, link, neighbor, port_beq}
use tail_kvm.LayoutGraph.Links.{IsSymmetric, neighbor-link}
use tail_kvm.LayoutGraph.Space.{
  ScreenCursor, ScreenSwitch, MultiScreenSpace, rect, crossed, enter, apply_delta,
}
use tail_kvm.LayoutGraph.Moves.{IsSpace, OnScreen, Follows, apply_delta-Follows}
use tail_kvm.LayoutGraph.Runs.{apply_deltas, apply_deltas-OnScreen, enter_no_bounce}

abbrev desk : Rect
desk = record { left = pos 0; top = pos 0; right = pos 1920; bottom = pos 1080 }

abbrev laptop : Rect
laptop = record { left = pos 0; top = pos 0; right = pos 1366; bottom = pos 768 }

desk-IsScreen : IsScreen desk
desk-IsScreen = omega i32_laws

laptop-IsScreen : IsScreen laptop
laptop-IsScreen = omega i32_laws

abbrev pair : LayoutGraph
pair = link Graph.new "main" Edge.right "laptop"

abbrev space : MultiScreenSpace
space = record { screens = ("main", desk) ∷ ("laptop", laptop) ∷ []; graph = pair; inset = pos 2 }

either_screen :
    (b c : Bool) (r : Rect)
    → (if b then some desk else if c then some laptop else none) ≡ some r
    → (r ≡ desk) ⊎ (r ≡ laptop)
either_screen true c r h = inl cc
either_screen false true r h = inr cc
either_screen false false r h = cc

IsScreen-ok : (r : Rect) → (r ≡ desk) ⊎ (r ≡ laptop) → IsScreen r × HasRoom (pos 2) r
IsScreen-ok r (inl e) = rw e (desk-IsScreen, omega i32_laws)
IsScreen-ok r (inr e) = rw e (laptop-IsScreen, omega i32_laws)

known : (name : String) (r : Rect) → rect space name ≡ some r → IsScreen r × HasRoom (pos 2) r
unfolding rect Dict.lookup
known name r h =
    IsScreen-ok r (either_screen (string_eq.beq "main" name) (string_eq.beq "laptop" name) r h)

space-IsSpace : IsSpace space
space-IsSpace = record {
  inset_nonneg = omega i32_laws;
  inset_fits = omega i32_laws;
  screen_ok = known;
}

abbrev at_edge : ScreenCursor
at_edge = record { screen = "main"; x = pos 1919; y = pos 540 }

on_main : OnScreen space at_edge
unfolding rect Dict.lookup
on_main = (desk, refl, omega i32_laws)

neighbor-link_example : neighbor pair "laptop" Edge.left ≡ (
    if port_beq ("laptop", opposite Edge.right) ("laptop", Edge.left)
    then some "main"
    else if port_beq ("main", Edge.right) ("laptop", Edge.left)
    then some "laptop"
    else neighbor Graph.new "laptop" Edge.left)
neighbor-link_example = neighbor-link Graph.new "main" "laptop" "laptop" Edge.right Edge.left

side_free : (s : String) (e : Edge) → neighbor Graph.new s e ≡ none
unfolding neighbor Graph.new Dict.lookup
side_free s e = refl

none_linked : IsSymmetric Graph.new
none_linked s t f h = cc (h, side_free s f)

apply_delta-Follows_example :
    (out : ScreenCursor × Option ScreenSwitch) × (apply_delta fixed space at_edge (pos 5) (pos 0)
      ≡ some out)
    × OnScreen space out.0
    × Follows fixed fixed-IsIeee space "main" out
apply_delta-Follows_example =
    apply_delta-Follows fixed fixed-IsIeee space at_edge (pos 5) (pos 0) space-IsSpace on_main
      (omega i32_laws) (omega i32_laws)

abbrev moves : List (ℤ × ℤ)
moves = (pos 5, pos 0) ∷ (negsuc 1, pos 3) ∷ (negsuc 9, pos 0) ∷ []

apply_deltas-OnScreen_example :
    (c : ScreenCursor) × (apply_deltas fixed space at_edge moves ≡ some c) × OnScreen space c
apply_deltas-OnScreen_example =
    apply_deltas-OnScreen fixed fixed-IsIeee space at_edge moves space-IsSpace on_main
      (omega i32_laws)

enter_no_bounce_example :
    let (cx, cy) = enter fixed (pos 2) desk laptop Edge.right (pos 1924) (pos 540) in
    crossed laptop (add_i32 cx (negsuc 1)) (add_i32 cy (pos 0)) ≢ some (opposite Edge.right)
enter_no_bounce_example =
    enter_no_bounce fixed (pos 2) desk laptop Edge.right (pos 1924) (pos 540) (negsuc 1) (pos 0)
      (omega i32_laws) (omega i32_laws) laptop-IsScreen (omega i32_laws) (omega i32_laws)
      (omega i32_laws)
