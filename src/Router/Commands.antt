-- ===== src/Router/Commands.antt =====
-- The commands that start, reconfigure and stop the router, and the space that they build from a layout
-- config (apps/tailkvm-ui/src-tauri/src/router.rs). The state is the part of `AppState` that they share
-- with the router.
use Prim.Native.String.{String}
use text.Mathlib.Text.{◌==◌ as str_eq}
use tail_kvm.Base.{
  ℕ, Bool, true, false, not, ◌||◌, Option, none, some, List, [], ◌∷◌, ltb, if◌then◌else◌,
}
use tail_kvm.Base.Int.{ℤ, pos}
use tail_kvm.Base.I32.{add_i32, max_i32, clamp_value, half_i32}
use tail_kvm.Base.Dict
use tail_kvm.Base.Dict.{string_eq}
use tail_kvm.ScreenSpace.Types.{Rect, from_label}
use tail_kvm.LayoutGraph.Graph
use tail_kvm.LayoutGraph.Graph.{LayoutGraph}
use tail_kvm.LayoutGraph.Space
use tail_kvm.LayoutGraph.Space.{MultiScreenSpace}
use tail_kvm.Session.Receiver.{RectI32, MonitorTopology}
use tail_kvm.Router.{
  RouterArgs, PeerScreen, Shared, already_running, reconfigured, stop_requested, note,
}

pub record RouterScreen : Type 0 where
  pub name : String
  pub width : ℤ
  pub height : ℤ
  pub is_local : Bool

pub record RouterLink : Type 0 where
  pub from : String
  pub edge : String
  pub to : String

pub record RouterConfig : Type 0 where
  pub screens : List RouterScreen
  pub links : List RouterLink

pub data Error : Type 0 where
  no_local_screen no_topology not_running : Error
  must_keep_local : (local : String) → Error

pub data Result {ℓ} (A : Type ℓ) : Type ℓ where
  ok : A → Result A
  err : Error → Result A

-- `.find(|screen| screen.is_local).map(|screen| screen.name.clone())`
unfoldable pub local_screen : List RouterScreen → Option String
local_screen [] = none
local_screen (s ∷ ss) = if s.is_local then some s.name else local_screen ss

-- `.any(|screen| screen.is_local)`
unfoldable pub has_local : List RouterScreen → Bool
has_local [] = false
has_local (s ∷ ss) = s.is_local || has_local ss

-- `Rect::new(0, 0, width.max(320), height.max(240))`
abbrev pub sized : ℤ → ℤ → Rect
sized width height = record {
  left = pos 0;
  top = pos 0;
  right = max_i32 width (pos 320);
  bottom = max_i32 height (pos 240);
}

abbrev pub virtual_rect : RectI32 → Rect
virtual_rect vs = record { left = vs.left; top = vs.top; right = vs.right; bottom = vs.bottom }

abbrev pub remote_rect : RouterScreen → Option PeerScreen → Rect
remote_rect s none = sized s.width s.height
remote_rect s (some peer) = sized peer.width peer.height

abbrev pub rect_of : RectI32 → List (String × PeerScreen) → RouterScreen → Rect
rect_of vs reported s =
    if s.is_local then virtual_rect vs else remote_rect s (Dict.lookup s.name reported)

-- The two loops of `build_multi_screen_space`.
unfoldable pub insert_screens :
    RectI32
    → List (String × PeerScreen)
    → List (String × Rect)
    → List RouterScreen
    → List (String × Rect)
insert_screens vs reported m [] = m
insert_screens vs reported m (s ∷ ss) =
    insert_screens vs reported (Dict.insert s.name (rect_of vs reported s) m) ss

unfoldable pub insert_links : LayoutGraph → List RouterLink → LayoutGraph
insert_links g [] = g
insert_links g (l ∷ ls) = insert_links (Graph.link g l.from (from_label l.edge) l.to) ls

-- The space with the point that the local pointer is locked to. `none` is a topology that the system
-- does not give.
abbrev pub built_on :
    RouterConfig
    → List (String × PeerScreen)
    → Option MonitorTopology
    → Result (MultiScreenSpace × ℤ × ℤ)
built_on config reported none = err no_topology
built_on config reported (some topology) =
    let vs = topology.virtual_screen in
    ok (
      Space.new (insert_screens vs reported [] config.screens)
          (insert_links Graph.new config.links),
      add_i32 vs.left (half_i32 vs.width),
      add_i32 vs.top (half_i32 vs.height),
    )

unfoldable pub build_multi_screen_space :
    RouterConfig
    → List (String × PeerScreen)
    → Option MonitorTopology
    → Result (MultiScreenSpace × ℤ × ℤ)
unfolding has_local insert_screens insert_links Space.new
build_multi_screen_space config reported topology =
    if has_local config.screens then built_on config reported topology else err no_local_screen

abbrev pub or_default {ℓ} : {A : Type ℓ} → Option A → A → A
or_default none d = d
or_default (some v) d = v

abbrev clamp_u64 : ℕ → ℕ → ℕ → ℕ
clamp_u64 v lo hi = if ltb v lo then lo else if ltb hi v then hi else v

-- The optional arguments of the start command.
pub record StartOptions : Type 0 where
  pub interval_ms : Option ℕ
  pub edge_margin : Option ℤ
  pub edge_dwell_ms : Option ℕ
  pub dead_corner_px : Option ℤ

unfoldable pub router_args : StartOptions → String → ℤ → ℤ → RouterArgs
unfolding clamp_value
router_args opts local_name lock_x lock_y = record {
  local_name = local_name;
  lock_x = lock_x;
  lock_y = lock_y;
  interval_ms = clamp_u64 (or_default opts.interval_ms 33) 8 100;
  edge_margin = clamp_value (or_default opts.edge_margin (pos 3)) (pos 1) (pos 64);
  edge_dwell_ms = clamp_u64 (or_default opts.edge_dwell_ms 0) 0 2000;
  dead_corner_px = clamp_value (or_default opts.dead_corner_px (pos 0)) (pos 0) (pos 1000);
}

-- The outcome of a command: its answer, the state after it, and the router thread that it spawns, by
-- the arguments of `run_router`.
abbrev pub Answer : Type 0
Answer = Result (Unit {0}) × Shared × Option RouterArgs

abbrev pub started_with :
    StartOptions → Shared → String → Result (MultiScreenSpace × ℤ × ℤ) → Answer
started_with opts s local_name (err e) = (err e, s, none)
started_with opts s local_name (ok (space, lock_x, lock_y)) =
    if s.router_running then (ok tt, note already_running s, none) else (
      ok tt,
      record s {
        router_running = true;
        router_space = some space;
        router_local_name = some local_name;
      },
      some (router_args opts local_name lock_x lock_y),
    )

abbrev pub started_as :
    RouterConfig
    → StartOptions
    → List (String × PeerScreen)
    → Option MonitorTopology
    → Shared
    → Option String
    → Answer
started_as config opts reported topology s none = (err no_local_screen, s, none)
started_as config opts reported topology s (some local_name) =
    started_with opts s local_name (build_multi_screen_space config reported topology)

unfoldable pub start_multi_screen_router :
    RouterConfig
    → StartOptions
    → List (String × PeerScreen)
    → Option MonitorTopology
    → Shared
    → Answer
unfolding local_screen build_multi_screen_space router_args
start_multi_screen_router config opts reported topology s =
    started_as config opts reported topology s (local_screen config.screens)

-- The config keeps the local screen of the running router, where that is recorded.
abbrev pub keeps_local : Option String → Option String → Bool
keeps_local none new_local = true
keeps_local (some local) none = false
keeps_local (some local) (some name) = str_eq name local

abbrev pub swapped : Shared → Result (MultiScreenSpace × ℤ × ℤ) → Answer
swapped s (err e) = (err e, s, none)
swapped s (ok (space, lock_x, lock_y)) =
    (ok tt, note reconfigured (record s { router_space = some space }), none)

unfoldable pub reconfigure_router :
    RouterConfig → List (String × PeerScreen) → Option MonitorTopology → Shared → Answer
unfolding local_screen build_multi_screen_space
reconfigure_router config reported topology s =
    if not s.router_running
    then (err not_running, s, none)
    else if keeps_local s.router_local_name (local_screen config.screens)
    then swapped s (build_multi_screen_space config reported topology)
    else (err (must_keep_local (or_default s.router_local_name "")), s, none)

unfoldable pub stop_multi_screen_router : Shared → Answer
stop_multi_screen_router s = (
  ok tt,
  record s {
    router_running = false;
    router_space = none;
    router_local_name = none;
    last_event = stop_requested;
  },
  none,
)
