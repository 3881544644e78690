-- ===== src/Router/LocalTurn.antt =====
-- A turn of the router while the local screen is active: the real cursor is watched at the edges, and a
-- push through an edge enters the screen next to it (apps/tailkvm-ui/src-tauri/src/router.rs).
use tail_kvm.Base.{Bool, true, false, ◌&&◌, ◌||◌, Option, none, some, if◌then◌else◌}
use tail_kvm.Base.Int.{ℤ, pos, ltb_ℤ}
use tail_kvm.Base.I32.{add_i32, sub_i32, leb_ℤ}
use tail_kvm.Float.{F64}
use tail_kvm.Core.PushGate.{PushGate, PushDir, Instant, record_delta, is_fresh}
use tail_kvm.ScreenSpace.Types.{Rect, Edge}
use tail_kvm.ScreenSpace.Guard
use tail_kvm.KeyClass.{is_some}
use tail_kvm.LayoutGraph.Space.{MultiScreenSpace, ScreenCursor, rect, neighbor, enter_neighbor}
use tail_kvm.Router.{
  RouterArgs, moved_at, set_cursor, Shared, Router, World, note, emit, screen_sender,
  peer_monitors_for,
}
use tail_kvm.Router.Steps.{
  Outcome, go_on, leave, start_hooks, drain, clamp_cursor, send_position, anchor_for,
}

-- `edge_to_push_dir` of apps/tailkvm-ui/src-tauri/src/seamless.rs
unfoldable pub edge_to_push_dir : Edge → PushDir
edge_to_push_dir Edge.right = PushDir.right
edge_to_push_dir Edge.left = PushDir.left
edge_to_push_dir Edge.top = PushDir.top
edge_to_push_dir Edge.bottom = PushDir.bottom

-- The cursor is within the margin of an edge of the local screen.
unfoldable pub at_edge : ℤ → Rect → ℤ → ℤ → Edge → Bool
at_edge m lr x y Edge.right = leb_ℤ (sub_i32 (sub_i32 lr.right (pos 1)) m) x
at_edge m lr x y Edge.left = leb_ℤ x (add_i32 lr.left m)
at_edge m lr x y Edge.top = leb_ℤ y (add_i32 lr.top m)
at_edge m lr x y Edge.bottom = leb_ℤ (sub_i32 (sub_i32 lr.bottom (pos 1)) m) y

-- What `find` asks of an edge: the cursor is at it, the user pushed that way, and a screen lies there.
unfoldable pub wants :
    RouterArgs → MultiScreenSpace → PushGate → Instant → Rect → ℤ → ℤ → Edge → Bool
unfolding edge_to_push_dir at_edge neighbor
wants a space gate now lr x y edge =
    at_edge a.edge_margin lr x y edge
    && is_fresh gate (edge_to_push_dir edge) now
    && is_some (neighbor space a.local_name edge)

unfoldable pub find_edge : (Edge → Bool) → Option Edge
find_edge p =
    if p Edge.right
    then some Edge.right
    else if p Edge.left
    then some Edge.left
    else if p Edge.top
    then some Edge.top
    else if p Edge.bottom
    then some Edge.bottom
    else none

-- The dead corners: `lo` and `hi` are the ends of the edge, `v` the position along it.
abbrev in_corner : ℤ → ℤ → ℤ → ℤ → Bool
in_corner corner v lo hi =
    ltb_ℤ (pos 0) corner
    && (leb_ℤ v (add_i32 lo corner) || leb_ℤ (sub_i32 (sub_i32 hi (pos 1)) corner) v)

unfoldable pub is_near_corner : ℤ → Rect → ℤ → ℤ → Option Edge → Bool
is_near_corner corner lr x y (some Edge.right) = in_corner corner y lr.top lr.bottom
is_near_corner corner lr x y (some Edge.left) = in_corner corner y lr.top lr.bottom
is_near_corner corner lr x y (some Edge.top) = in_corner corner x lr.left lr.right
is_near_corner corner lr x y (some Edge.bottom) = in_corner corner x lr.left lr.right
is_near_corner corner lr x y none = false

-- `edge.filter(|_| fire)`
abbrev pub if_fired : Bool → Option Edge → Option Edge
if_fired fire none = none
if_fired fire (some edge) = if fire then some edge else none

-- The deltas since the last turn are drained into the gate.
unfoldable pub pushed : World → Router → Router
unfolding drain
pushed w r =
    let (push_dx, push_dy) = drain (pos 0) (pos 0) w.raw_deltas in
    record r { push_gate = record_delta r.push_gate push_dx push_dy w.now }

module _ (o : F64) where
  -- Control moves to the screen of `entry`.
  unfoldable pub cross : RouterArgs → World → MultiScreenSpace → ScreenCursor → Router → Router
  unfolding clamp_cursor start_hooks anchor_for screen_sender peer_monitors_for
  cross a w space entry r =
      let active = entry.screen in
      let c : ScreenCursor = clamp_cursor (peer_monitors_for w.screen_sizes active) entry in
      let remote : Shared = record r.shared {
        ime_anchor = anchor_for o a space active c;
        remote_active = true;
      } in
      let hooked : Shared = emit (set_cursor a.lock_x a.lock_y) (start_hooks w remote) in
      let held : Shared = record hooked {
        confined = if w.confine_ok then some (a.lock_x, a.lock_y) else hooked.confined;
      } in
      record r {
        active = active;
        cursor = c;
        link_down_since = none;
        active_slot = screen_sender w.sessions active;
        shared =
            note (moved_at active c.x c.y)
              (send_position (screen_sender w.sessions' active) c held);
      }

  abbrev pub crossed_to :
      RouterArgs → World → MultiScreenSpace → Router → Option ScreenCursor → Router
  crossed_to a w space r none = r
  crossed_to a w space r (some entry) = cross a w space entry r

  -- The edge that is crossed, if one is.
  abbrev pub try_edge :
      RouterArgs → World → MultiScreenSpace → ℤ → ℤ → Router → Option Edge → Router
  try_edge a w space x y r none = r
  try_edge a w space x y r (some edge) =
      crossed_to a w space r (enter_neighbor o space a.local_name edge x y)

  -- The rest of the turn once the deltas are recorded and the local rectangle `lr` is known.
  unfoldable pub watch_edges :
      RouterArgs → World → MultiScreenSpace → Rect → ℤ → ℤ → Router → Router
  unfolding wants find_edge is_near_corner cross Guard.update
  watch_edges a w space lr x y r =
      let edge = find_edge (wants a space r.push_gate w.now' lr x y) in
      let near_corner = is_near_corner a.dead_corner_px lr x y edge in
      let (guard, fire) = Guard.update r.switch_guard (is_some edge) near_corner in
      try_edge a w space x y (record r { switch_guard = guard }) (if_fired fire edge)

  abbrev pub at_position :
      RouterArgs → World → MultiScreenSpace → Router → ℤ → ℤ → Option Rect → Outcome
  at_position a w space r x y none = leave r
  at_position a w space r x y (some lr) = go_on (watch_edges a w space lr x y r)

  abbrev pub from_position :
      RouterArgs → World → MultiScreenSpace → Router → Option (ℤ × ℤ) → Outcome
  from_position a w space r none = go_on r
  from_position a w space r (some (x, y)) =
      at_position a w space (pushed w r) x y (rect space a.local_name)

  unfoldable pub local_turn : RouterArgs → World → MultiScreenSpace → Router → Outcome
  unfolding watch_edges pushed
  local_turn a w space r = from_position a w space r w.cursor_position
