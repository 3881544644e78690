-- ===== src/Router/Built.antt =====
-- The spaces that the router commands build are valid, and the router that they start is safe
-- (apps/tailkvm-ui/src-tauri/src/router.rs).
use Prim.Native.String.{String}
use tail_kvm.Base.{
  ◌≡◌, refl, ap, ◌∙◌, ◌≢◌, ◌↔◌, ◌⊎◌, inl, inr, Bool, true, false, not, Option, none, some, List, [],
  arith, if◌then◌else◌,
}
use tail_kvm.Base.Int.{ℤ}
use tail_kvm.Base.I32.{add_i32, half_i32}
use tail_kvm.Base.Dict
use tail_kvm.Base.Dict.{string_eq, lookup-insert}
use tail_kvm.Float.{F64}
use tail_kvm.LayoutGraph.Graph
use tail_kvm.LayoutGraph.Graph.{LayoutGraph, port_beq, port_beq_iff}
use tail_kvm.LayoutGraph.Space
use tail_kvm.LayoutGraph.Space.{MultiScreenSpace, rect}
use tail_kvm.Session.Receiver.{MonitorTopology}
use tail_kvm.Router.{RouterArgs, PeerScreen, Shared, already_running, reconfigured, note}
use tail_kvm.Router.Run.{Event, is_calm, run_router}
use tail_kvm.Router.Home.{IsFree, IsRoutable}
use tail_kvm.Router.Safety.{IsSafe, SwapsRoutable, run_router-IsSafe}
use tail_kvm.Router.Commands.{
  RouterConfig, Answer, Error, ok, must_keep_local, keeps_local, swapped, or_default, err,
  not_running, no_topology, no_local_screen, has_local, reconfigure_router, local_screen,
  virtual_rect, insert_screens, insert_links, build_multi_screen_space, StartOptions, router_args,
  started_with, started_as, start_multi_screen_router,
}
use tail_kvm.Router.Sizes.{
  IsRoomy, AreSized, AreReported, HasNoLoop, AreRoomy, insert_screens-AreRoomy, IsLoopless,
  insert_links-IsLoopless, has_local-local_screen, kept_local,
}

-- What a layout config and the reports of the peers must satisfy.
pub record IsConfig (local : String) (config : RouterConfig) (reported : List (String × PeerScreen))
    (topology : MonitorTopology) : Type 0 where
  pub whole : IsRoomy (virtual_rect topology.virtual_screen)
  pub reports : AreReported reported
  pub sizes : AreSized config.screens
  pub no_loop : HasNoLoop local config.links

-- The same, where the system may give no topology of the monitors.
abbrev pub IsConfigOn :
    String → RouterConfig → List (String × PeerScreen) → Option MonitorTopology → Type 0
IsConfigOn local config reported queried =
    (topology : MonitorTopology) → queried ≡ some topology → IsConfig local config reported topology

-- A reconfiguration of the router of `a` has either failed without any effect, for a reason, or it has put
-- in place a space that is routable for `a`, and has changed nothing else but last_event.
abbrev pub IsAtomic : RouterArgs → RouterConfig → Option MonitorTopology → Shared → Answer → Type 0
IsAtomic a config queried s answer =
    ((e : Error) × (answer ≡ (err e, s, none))
      × (s.router_running ≡ true
          → local_screen config.screens ≡ some a.local_name
          → queried ≡ none))
    ⊎ ((space : MultiScreenSpace) × (answer
          ≡ (ok tt, note reconfigured (record s { router_space = some space }), none))
        × IsRoutable a space
        × (s.router_running ≡ true)
        × (local_screen config.screens ≡ some a.local_name)
        × (queried ≢ none))

-- A start has either failed, for want of a topology, or found the router running, or spawned one for the
-- screen of `a` that is safe.
abbrev pub HasStarted : RouterArgs → Option MonitorTopology → F64 → Shared → Answer → Type 0
HasStarted a queried o s answer =
    ((e : Error) × (answer ≡ (err e, s, none)) × (queried ≡ none))
    ⊎ ((queried ≢ none)
        × (s.router_running ≡ true)
        × (answer ≡ (ok tt, note already_running s, none)))
    ⊎ ((args : RouterArgs) × (s' : Shared) × (answer ≡ (ok tt, s', some args))
        × (args.local_name ≡ a.local_name)
        × (s'.router_running ≡ true)
        × (s'.router_local_name ≡ some a.local_name)
        × (queried ≢ none)
        × (IsFree s
            → (raw_ok : Bool) (es : List Event) → SwapsRoutable args es
            → IsSafe (is_calm es) args (run_router o raw_ok args s' es)))

-- The space that is built from a config.
abbrev pub space_of : RouterConfig → List (String × PeerScreen) → MonitorTopology → MultiScreenSpace
space_of config reported topology =
    Space.new (insert_screens topology.virtual_screen reported [] config.screens)
      (insert_links Graph.new config.links)

module _ (a : RouterArgs) (config : RouterConfig) (reported : List (String × PeerScreen))
    (topology : MonitorTopology) (good : IsConfig a.local_name config reported topology) where
  pub space_of-IsRoutable : IsRoutable a (space_of config reported topology)
  unfolding AreRoomy IsLoopless Space.new Graph.new Graph.neighbor Dict.lookup Space.neighbor
      insert_links
  space_of-IsRoutable = record {
    valid = record {
      inset_nonneg = omega arith;
      inset_fits = omega arith;
      screen_ok = λ name r known.
          unfold rect in
          insert_screens-AreRoomy topology.virtual_screen reported good.whole good.reports []
            config.screens good.sizes (λ _ _ e. cc) name r known;
    };
    loopless = insert_links-IsLoopless a.local_name Graph.new config.links good.no_loop (λ _ e. cc);
  }

  build_multi_screen_space-space_of :
      local_screen config.screens ≡ some a.local_name
      → (lock : ℤ × ℤ) × (build_multi_screen_space config reported (some topology)
          ≡ ok (space_of config reported topology, lock.0, lock.1))
  unfolding build_multi_screen_space
  build_multi_screen_space-space_of named =
      let vs = topology.virtual_screen in
      (
        (add_i32 vs.left (half_i32 vs.width), add_i32 vs.top (half_i32 vs.height)),
        rw (has_local-local_screen config.screens a.local_name named, build_multi_screen_space),
      )

  reconfigure_built-IsAtomic :
      (s : Shared)
      → s.router_local_name ≡ some a.local_name
      → IsAtomic a config (some topology) s (reconfigure_router config reported (some topology) s)
  unfolding reconfigure_router
  reconfigure_built-IsAtomic s recorded =
      choose s.router_running (keeps_local s.router_local_name (local_screen config.screens)) refl
        (kept_local s.router_local_name (local_screen config.screens) a.local_name recorded)
    where
      choose :
          (running kept : Bool)
          → s.router_running ≡ running
          → (kept ≡ true) ↔ (local_screen config.screens ≡ some a.local_name)
          → IsAtomic a config (some topology) s (
              if not running
              then (err not_running, s, none)
              else if kept
              then swapped s (build_multi_screen_space config reported (some topology))
              else (err (must_keep_local (or_default s.router_local_name "")), s, none))
      choose false kept off same = inl (not_running, refl, λ on. absurd (cc))
      choose true false on same = inl (
        must_keep_local (or_default s.router_local_name ""),
        refl,
        λ _ named. absurd (cc (same.1 named)),
      )
      choose true true on same =
          let (lock, built) = build_multi_screen_space-space_of (same.0 refl) in
          inr (
            space_of config reported topology,
            ap (swapped s) built,
            space_of-IsRoutable,
            on,
            same.0 refl,
            λ e. cc,
          )

  start_built-IsSafe :
      (o : F64) (opts : StartOptions) (s : Shared)
      → local_screen config.screens ≡ some a.local_name
      → HasStarted a
          (some topology)
          o
          s
          (start_multi_screen_router config opts reported (some topology) s)
  unfolding start_multi_screen_router router_args
  start_built-IsSafe o opts s named =
      let (lock, built) = build_multi_screen_space-space_of named in
      let answered =
        ap (started_as config opts reported (some topology) s) named
        ∙ ap (started_with opts s a.local_name) built in
      choose s.router_running lock refl answered
    where
      choose :
          (running : Bool) (lock : ℤ × ℤ)
          → s.router_running ≡ running
          → start_multi_screen_router config opts reported (some topology) s ≡ (
              if running then (ok tt, note already_running s, none) else (
                ok tt,
                record s {
                  router_running = true;
                  router_space = some (space_of config reported topology);
                  router_local_name = some a.local_name;
                },
                some (router_args opts a.local_name lock.0 lock.1),
              ))
          → HasStarted a
              (some topology)
              o
              s
              (start_multi_screen_router config opts reported (some topology) s)
      choose true lock on answered = inr (inl (λ e. cc, on, answered))
      choose false lock off answered =
          let args : RouterArgs = router_args opts a.local_name lock.0 lock.1 in
          let s' : Shared = record s {
            router_running = true;
            router_space = some (space_of config reported topology);
            router_local_name = some a.local_name;
          } in
          inr (
            inr (
              args,
              s',
              answered,
              refl,
              refl,
              refl,
              λ e. cc,
              λ free raw_ok es swaps.
                  run_router-IsSafe o args raw_ok s' (space_of config reported topology) es refl
                    (record {
                      valid = space_of-IsRoutable.valid;
                      loopless = space_of-IsRoutable.loopless;
                    })
                    free swaps,
            ))

module _ (a : RouterArgs) (config : RouterConfig) (reported : List (String × PeerScreen)) where
  reconfigure_unqueried :
      (s : Shared) → IsAtomic a config none s (reconfigure_router config reported none s)
  unfolding reconfigure_router build_multi_screen_space
  reconfigure_unqueried s =
      choose s.router_running (keeps_local s.router_local_name (local_screen config.screens))
        (has_local config.screens)
    where
      choose :
          (running kept has : Bool)
          → IsAtomic a config none s (
              if not running
              then (err not_running, s, none)
              else if kept
              then swapped s (if has then err no_topology else err no_local_screen)
              else (err (must_keep_local (or_default s.router_local_name "")), s, none))
      choose false kept has = inl (not_running, refl, λ _ _. refl)
      choose true false has =
          inl (must_keep_local (or_default s.router_local_name ""), refl, λ _ _. refl)
      choose true true true = inl (no_topology, refl, λ _ _. refl)
      choose true true false = inl (no_local_screen, refl, λ _ _. refl)

  -- For a config whose sizes are in range and that does not link the local screen to itself, and a router
  -- whose recorded local screen is that of `a`: a reconfiguration either fails and changes nothing, or
  -- puts in place a space on which that router stays safe and changes nothing else but last_event; it
  -- succeeds exactly if the router is marked running, the first local screen of the config is that one,
  -- and the system gives the topology of the monitors.
  pub reconfigure_router-IsAtomic :
      (queried : Option MonitorTopology) (s : Shared)
      → IsConfigOn a.local_name config reported queried
      → s.router_local_name ≡ some a.local_name
      → IsAtomic a config queried s (reconfigure_router config reported queried s)
  reconfigure_router-IsAtomic none s good recorded = reconfigure_unqueried s
  reconfigure_router-IsAtomic (some topology) s good recorded =
      reconfigure_built-IsAtomic a config reported topology (good topology refl) s recorded

  start_unqueried :
      (o : F64) (opts : StartOptions) (s : Shared)
      → local_screen config.screens ≡ some a.local_name
      → HasStarted a none o s (start_multi_screen_router config opts reported none s)
  unfolding start_multi_screen_router build_multi_screen_space
  start_unqueried o opts s named = inl (
    no_topology,
    ap (started_as config opts reported none s) named
        ∙ ap
            (λ b.
              started_with opts s a.local_name (if b then err no_topology else err no_local_screen))
            (has_local-local_screen config.screens a.local_name named),
    refl,
  )

  -- For a config whose sizes are in range, that does not link the local screen to itself, and whose first
  -- local screen is that of `a`: where the system does not give the topology of the monitors, a start
  -- fails and changes nothing; else, where the router is marked running already, it changes nothing but
  -- last_event and spawns nothing; otherwise it marks the router running, records the local screen, and
  -- spawns a router for that screen that is safe as in run_router-IsSafe, through any turns and whatever
  -- the other threads do to the shared state between them, if the local input is free at the start and
  -- only spaces routable for that screen are put in place.
  pub start_multi_screen_router-IsSafe :
      (o : F64) (queried : Option MonitorTopology) (opts : StartOptions) (s : Shared)
      → IsConfigOn a.local_name config reported queried
      → local_screen config.screens ≡ some a.local_name
      → HasStarted a queried o s (start_multi_screen_router config opts reported queried s)
  start_multi_screen_router-IsSafe o none opts s good named = start_unqueried o opts s named
  start_multi_screen_router-IsSafe o (some topology) opts s good named =
      start_built-IsSafe a config reported topology (good topology refl) o opts s named
