-- ===== src/Router/Tests.antt =====
-- A main screen with a laptop to its right, and the router of the main screen at work
-- (apps/tailkvm-ui/src-tauri/src/router.rs).
use Prim.Native.String.{String}
use text.Mathlib.TextEquality.{eq_iff}
use mathlib.Core.Path.{subst}
use tail_kvm.Base.{
  ◌+◌, ◌*◌, ◌≡◌, refl, sym, ◌∙◌, ◌≢◌, true, false, none, some, List, [], ◌∷◌, arith,
}
use tail_kvm.Base.Int.{pos}
use tail_kvm.Base.I32.{sub_i32, i32_laws}
use tail_kvm.Base.Dict
use tail_kvm.Float.Fixed.{fixed}
use tail_kvm.Core.PushGate
use tail_kvm.Core.PushGate.{is_fresh, record_delta}
use tail_kvm.ScreenSpace.Types.{from_label}
use tail_kvm.ScreenSpace.Guard
use tail_kvm.LayoutGraph.Graph
use tail_kvm.LayoutGraph.Graph.{port_beq}
use tail_kvm.LayoutGraph.Space
use tail_kvm.LayoutGraph.Space.{MultiScreenSpace, rect, enter_neighbor}
use tail_kvm.Session.Receiver.{MonitorTopology}
use tail_kvm.Router.{RouterArgs, Sessions, Shared, Router, World, armed, screen_sender}
use tail_kvm.Router.Commands.{
  RouterConfig, StartOptions, start_multi_screen_router, reconfigure_router, local_screen,
  insert_screens, insert_links,
}
use tail_kvm.Router.Run.{
  mouse_thread_ended, is_calm, Event, turned, meanwhile, Standing, looping, ended, crashed, refused,
  start, run_router, step,
}
use tail_kvm.Router.Safety.{IsSafe, run_router-IsSafe}
use tail_kvm.Router.Watchdog.{Before, Endures, dead_link-Before}
use tail_kvm.Router.Push.{IsPushedThrough, step-IsPushedThrough}
use tail_kvm.Router.Sizes.{AreSized, HasNoLoop}
use tail_kvm.Router.Built.{
  IsConfig, IsConfigOn, space_of, space_of-IsRoutable, IsAtomic, reconfigure_router-IsAtomic,
  HasStarted, start_multi_screen_router-IsSafe,
}

abbrev args : RouterArgs
args = record {
  local_name = "main";
  lock_x = pos 960;
  lock_y = pos 540;
  interval_ms = 33;
  edge_margin = pos 3;
  edge_dwell_ms = 0;
  dead_corner_px = pos 0;
}

abbrev config : RouterConfig
config = record {
  screens =
      record { name = "main"; width = pos 0; height = pos 0; is_local = true }
      ∷ record { name = "laptop"; width = pos 1366; height = pos 768; is_local = false }
      ∷ [];
  links = record { from = "main"; edge = "right"; to = "laptop" } ∷ [];
}

abbrev topology : MonitorTopology
topology = record {
  virtual_screen = record {
    left = pos 0;
    top = pos 0;
    right = pos 1920;
    bottom = pos 1080;
    width = pos 1920;
    height = pos 1080;
  };
  monitors = [];
}

names_differ : ◌≢◌ {A = String} "laptop" "main"
names_differ e = cc ((eq_iff "laptop" "main").1 e)

config-IsConfig : IsConfig "main" config [] topology
unfolding AreSized HasNoLoop Dict.lookup
config-IsConfig = record {
  whole = (omega i32_laws, omega i32_laws);
  reports = λ name peer e. cc;
  sizes = omega arith;
  no_loop = (λ _ e. names_differ e, tt);
}

config-IsConfigOn : IsConfigOn "main" config [] (some topology)
config-IsConfigOn given e = subst (IsConfig "main" config []) (grind arith) config-IsConfig

abbrev space : MultiScreenSpace
space = space_of config [] topology

abbrev idle : Shared
idle = record {
  router_running = true;
  router_space = some space;
  router_local_name = some "main";
  remote_active = false;
  ime_anchor = none;
  mouse_hook = record { running = false; installed = false };
  keyboard_hook = record { running = false; installed = false; generation = 4 };
  confined = none;
  last_event = armed;
  effects = [];
}

abbrev connected : Sessions
connected = ("laptop", record { should_run = true; tx = some 7 }) ∷ []

-- The cursor rests at the right edge, and the user pushes on.
abbrev push : World
push = record {
  pause_pressed = false;
  cursor_position = some (pos 1919, pos 540);
  raw_deltas = (pos 5, pos 0) ∷ [];
  now = 1000000000;
  now' = 1000001000;
  sessions = connected;
  sessions' = connected;
  sessions'' = connected;
  screen_sizes = [];
  is_composing = false;
  mouse_hook_ok = true;
  keyboard_hook_ok = true;
  confine_ok = true;
}

-- The session of the laptop has gone, and nothing is pushed.
abbrev dead : World
dead = record push { sessions = []; sessions' = []; sessions'' = []; raw_deltas = [] }

abbrev late : World
late = record dead { now = 2600000000; now' = 2600000000 }

abbrev of_standing : Standing → Router
of_standing (looping r) = r
of_standing (ended r) = r
of_standing (crashed r) = r
of_standing (refused s) = start args s

crossed : Router
crossed = of_standing (step fixed args push (start args idle))

crosses : step fixed args push (start args idle) ≡ looping crossed
unfolding step start crossed Dict.lookup Dict.insert screen_sender rect Graph.new Graph.link
    Graph.neighbor insert_links insert_screens Space.new
crosses = refl

on_laptop :
    (crossed.active ≡ "laptop")
    × (crossed.active_slot ≡ some 7)
    × (crossed.shared.remote_active ≡ true)
unfolding step start crossed Dict.lookup Dict.insert screen_sender rect Graph.new Graph.link
    Graph.neighbor insert_links insert_screens Space.new sub_i32 is_fresh record_delta PushGate.new
    port_beq from_label Guard.new enter_neighbor
on_laptop = (refl, refl, refl)

abbrev history : List Event
history = turned push ∷ meanwhile (mouse_thread_ended true) ∷ turned dead ∷ turned late ∷ []

started_home : (start args idle).active ≡ args.local_name
unfolding start
started_home = refl

away : crossed.active ≢ args.local_name
away e = names_differ (sym on_laptop.0 ∙ e)

run_router-IsSafe_example : IsSafe (is_calm history) args (run_router fixed true args idle history)
run_router-IsSafe_example =
    run_router-IsSafe fixed args true idle space history refl
      (space_of-IsRoutable args config [] topology config-IsConfig)
      (refl, refl, refl, refl, refl, refl, refl) tt

step-IsPushedThrough_example : IsPushedThrough args push (start args idle) crossed.active
step-IsPushedThrough_example =
    step-IsPushedThrough fixed args push (start args idle) crossed started_home crosses away

-- The router on the laptop, whose link was alive at the last turn.
abbrev away_state : Router
away_state = record (start args idle) {
  active = "laptop";
  cursor = record { screen = "laptop"; x = pos 2; y = pos 384 };
  active_slot = some 7;
}

endured : Router
endured = of_standing (step fixed args dead away_state)

goes_on : step fixed args dead away_state ≡ looping endured
unfolding step start endured Dict.lookup Dict.insert screen_sender rect insert_screens Space.new
goes_on = refl

stays_away : endured.active ≡ "laptop"
unfolding step start endured Dict.lookup Dict.insert screen_sender rect insert_screens Space.new
stays_away = refl

dead_turn : Endures fixed args away_state (turned dead ∷ [])
unfolding Endures start Dict.lookup Dict.insert screen_sender rect insert_screens Space.new
dead_turn =
    ((space, refl, λ e. cc, refl), (endured, goes_on, λ e. names_differ (sym stays_away ∙ e), tt))

alive_before : away_state.link_down_since ≡ none
unfolding start
alive_before = refl

dead_link-Before_example : Before (1000000000 + 1500 * 1000000) (turned dead ∷ [])
dead_link-Before_example =
    dead_link-Before fixed args away_state dead [] (λ e. names_differ e) alive_before dead_turn

reconfigure_router-IsAtomic_example :
    IsAtomic args config (some topology) idle (reconfigure_router config [] (some topology) idle)
reconfigure_router-IsAtomic_example =
    reconfigure_router-IsAtomic args config [] (some topology) idle config-IsConfigOn refl

abbrev options : StartOptions
options = record {
  interval_ms = none;
  edge_margin = none;
  edge_dwell_ms = some 300;
  dead_corner_px = none;
}

main_is_local : local_screen config.screens ≡ some "main"
unfolding local_screen
main_is_local = refl

start_multi_screen_router-IsSafe_example :
    HasStarted args
      (some topology)
      fixed
      (record idle { router_running = false })
      (start_multi_screen_router config options []
        (some topology)
        (record idle { router_running = false }))
start_multi_screen_router-IsSafe_example =
    start_multi_screen_router-IsSafe args config [] fixed (some topology) options
      (record idle { router_running = false }) config-IsConfigOn main_is_local
