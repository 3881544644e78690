-- ===== src/Seamless/LocalTurn.antt =====
-- A turn of the capture engine while the local input is in use: the real cursor is watched at the edges
-- of its monitor (apps/tailkvm-ui/src-tauri/src/seamless.rs).
use Prim.Native.String.{String}
use tail_kvm.Base.{List, [], Bool, true, false, ◌&&◌, not, Option, none, some, if◌then◌else◌}
use tail_kvm.Base.Dict
use tail_kvm.Base.Dict.{string_eq}
use tail_kvm.Base.Int.{ℤ, pos, ltb_ℤ}
use tail_kvm.Float.{F64}
use tail_kvm.Net.Protocol.{mouse_set_position}
use tail_kvm.Core.PushGate.{PushGate, Instant, record_delta, is_fresh}
use tail_kvm.ScreenSpace.Types.{Rect, Edge, from_label}
use tail_kvm.ScreenSpace.Guard
use tail_kvm.ScreenSpace.Combined
use tail_kvm.ScreenSpace.Combined.{CombinedSpace, CursorState, enter_remote_at}
use tail_kvm.ScreenSpace.Clamp.{Monitor}
use tail_kvm.KeyClass.{is_some}
use tail_kvm.LayoutGraph.Graph.{edge_eq}
use tail_kvm.Router.{PeerScreen}
use tail_kvm.Router.Steps.{drain}
use tail_kvm.Router.LocalTurn.{edge_to_push_dir, at_edge, is_near_corner, find_edge}
use tail_kvm.Seamless.{
  SeamlessArgs, entered_at, set_cursor, Shared, Engine, World, emit, note, peer_adjacent,
  is_outer_edge, eq_monitor,
}
use tail_kvm.Seamless.Steps.{Outcome, go_on, start_hooks, send_remote, clamp_state, anchor_of}

abbrev pub rect_of : Monitor → Rect
rect_of (l, t, r, b) = record { left = l; top = t; right = r; bottom = b }

abbrev on_attach : Option Monitor → Monitor → Bool
on_attach none mon = true
on_attach (some m) mon = eq_monitor mon m

-- The edge may be crossed: the peer is placed along it, or, without a placement, it is the configured
-- edge, on the monitor it is pinned to, and faces outward.
unfoldable pub edge_allowed : SeamlessArgs → Option Monitor → Monitor → Edge → Bool
unfolding peer_adjacent is_outer_edge from_label
edge_allowed a (some peer) mon e = peer_adjacent mon e peer
edge_allowed a none mon e =
    edge_eq e (from_label a.switch_edge)
    && (on_attach a.attach_monitor mon && is_outer_edge mon e a.local_monitors)

-- What `find` asks of an edge.
unfoldable pub wants : SeamlessArgs → PushGate → Instant → Monitor → ℤ → ℤ → Edge → Bool
unfolding edge_allowed at_edge edge_to_push_dir is_near_corner
wants a gate now mon x y e =
    at_edge a.edge_margin (rect_of mon) x y e
    && (is_fresh gate (edge_to_push_dir e) now
        && (edge_allowed a a.peer_rect mon e
            && not (is_near_corner a.dead_corner_px (rect_of mon) x y (some e))))

abbrev pub lookup_peer : World → Option String → Option PeerScreen
lookup_peer w none = none
lookup_peer w (some name) = Dict.lookup name w.screen_sizes

-- The size of the peer that is used, and its monitors.
abbrev pub size_of : SeamlessArgs → Option PeerScreen → ℤ × ℤ
size_of a none = (a.remote_width, a.remote_height)
size_of a (some peer) =
    if ltb_ℤ (pos 320) peer.width && ltb_ℤ (pos 240) peer.height
    then (peer.width, peer.height)
    else (a.remote_width, a.remote_height)

abbrev pub monitors_of : Option PeerScreen → List Monitor
monitors_of none = []
monitors_of (some peer) = peer.monitors

abbrev pub space_of : Monitor → ℤ × ℤ → Edge → CombinedSpace
space_of mon (width, height) edge =
    Combined.new (rect_of mon)
      (record { left = pos 0; top = pos 0; right = width; bottom = height }) edge

-- The space that a crossing through an edge makes.
abbrev pub crossing_space : SeamlessArgs → World → Edge → CombinedSpace
crossing_space a w edge = space_of w.monitor (size_of a (lookup_peer w w.peer_name)) edge

-- `cross_edge.unwrap_or(edge)`
abbrev pub or_configured : SeamlessArgs → Option Edge → Edge
unfolding from_label
or_configured a none = from_label a.switch_edge
or_configured a (some e) = e

module _ (o : F64) where
  -- Control moves to the remote screen.
  unfoldable pub enter : SeamlessArgs → World → ℤ → ℤ → Edge → Engine o → Engine o
  unfolding Combined.new start_hooks clamp_state anchor_of
  enter a w x y edge r =
      let peer = lookup_peer w w.peer_name in
      let combined = crossing_space a w edge in
      let c : CursorState = clamp_state (monitors_of peer) (enter_remote_at o combined x y) in
      let hooked : Shared = start_hooks w (record r.shared { remote_control_active = true }) in
      let sent : Shared = send_remote w.sender_slot' (mouse_set_position c.x c.y) hooked in
      let parked : Shared =
        emit (set_cursor a.lock_x a.lock_y)
          (record sent { ime_anchor = anchor_of o (some w.monitor) (size_of a peer) c.x c.y }) in
      record r {
        combined = combined;
        state = c;
        remote_active = true;
        anchor_local_rect = some w.monitor;
        anchor_remote_size = size_of a peer;
        peer_monitors = monitors_of peer;
        link_down_since = none;
        last_send = w.now_sent;
        shared = note (entered_at c.x c.y) (record parked {
          confined = if w.confine_ok then some (a.lock_x, a.lock_y) else parked.confined;
        });
      }

  -- The deltas since the last turn are drained into the gate.
  unfoldable pub pushed : World → Engine o → Engine o
  unfolding drain
  pushed w r =
      let (push_dx, push_dy) = drain (pos 0) (pos 0) w.raw_deltas in
      record r { push_gate = record_delta r.push_gate push_dx push_dy w.now }

  -- The guard decides whether the edge that is pushed is crossed; a live session is needed.
  unfoldable pub watch_edges : SeamlessArgs → World → ℤ → ℤ → Engine o → Engine o
  unfolding wants find_edge enter Guard.update
  watch_edges a w x y r =
      let cross_edge = find_edge (wants a r.push_gate w.now' w.monitor x y) in
      let (guard, fire) =
        Guard.update r.switch_guard (is_some cross_edge && is_some w.sender_slot) false in
      let guarded : Engine o = record r { switch_guard = guard } in
      if fire then enter a w x y (or_configured a cross_edge) guarded else guarded

  abbrev pub at_position : SeamlessArgs → World → Option (ℤ × ℤ) → Engine o → Outcome o
  at_position a w none r = go_on r
  at_position a w (some (x, y)) r = go_on (watch_edges a w x y (pushed w r))

  unfoldable pub local_turn : SeamlessArgs → World → Engine o → Outcome o
  unfolding watch_edges pushed
  local_turn a w r = at_position a w w.cursor_position r
