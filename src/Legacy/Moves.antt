-- ===== src/Legacy/Moves.antt =====
-- What the older capture loop sends, and how it ends
-- (apps/tailkvm-ui/src-tauri/src/legacy_capture.rs).
use tail_kvm.Base.{
  ℕ, ◌+◌, ◌%◌, ◌==◌, ◌^◌, ◌≡◌, refl, Bool, true, false, not, ◌&&◌, ◌||◌, Option, none, some, List,
  [], ◌∷◌, ◌++◌, ltb, if◌then◌else◌,
}
use tail_kvm.Base.Int.{ℤ, pos, ◌≤ℤ◌}
use tail_kvm.Base.I32.{IsCoord, sub_i32, clamp_value, clamp_i32-some, clamp_value_within, i32_laws}
use tail_kvm.Float.{F64}
use tail_kvm.Net.Protocol.{WireMessage, mouse_set_position, mouse_move}
use tail_kvm.Core.Geometry.{Point, remote_entry_position, is_cursor_at_edge}
use tail_kvm.Core.Geometry.Return.{HasMargins, local_return_position_lem}
use tail_kvm.Router.Steps.{drain}
use tail_kvm.Router.RemoteTurn.{is_zero}
use tail_kvm.Legacy.{
  CaptureArgs, Note, Effect, send, set_cursor, Shared, Capture, World, note, emit, capturing,
}
use tail_kvm.Legacy.{waiting, warp_ignored}
use tail_kvm.Legacy.Turn.{park, warp_threshold, is_over, last_or}
use tail_kvm.Legacy.Turn.{
  Outcome, go_on, leave, panicked, skip, enter, watch_edge, forward, scaled, move_by, remote_move,
  mirror_move, at_position, turn, finish, Standing, looping, ended, crashed, settle, step, run,
  start_hooks,
}

-- A number is at most `m` in either direction.
abbrev pub IsWithin : ℤ → ℤ → Type 0
IsWithin m n = (sub_i32 (pos 0) m ≤ℤ n) × (n ≤ℤ m)

abbrev pub IsMessageBounded : ℤ → WireMessage → Type 0
IsMessageBounded m (mouse_move dx dy) = IsWithin m dx × IsWithin m dy
IsMessageBounded m _ = Unit {0}

-- Every relative move that was sent is bounded.
abbrev pub IsBounded : ℤ → List Effect → Type 0
IsBounded m [] = Unit {0}
IsBounded m (send message ∷ es) = IsMessageBounded m message × IsBounded m es
IsBounded m (set_cursor x y ∷ es) = IsBounded m es

-- The loop is over: it is marked stopped, and no hook is in place or flagged.
abbrev pub IsOver : Shared → Type 0
IsOver s =
    (s.capture_running ≡ false)
    × (s.mouse_hook.running ≡ false)
    × (s.mouse_hook.installed ≡ false)
    × (s.keyboard_hook.running ≡ false)
    × (s.keyboard_hook.installed ≡ false)

abbrev pub IsTame : ℤ → Standing → Type 0
IsTame m (looping r) = IsBounded m r.shared.effects
IsTame m (ended r) = IsBounded m r.shared.effects × IsOver r.shared
IsTame m (crashed r) = ⊥

IsBounded-append :
    (m : ℤ) (es : List Effect) (e : Effect)
    → IsBounded m es
    → IsBounded m (e ∷ [])
    → IsBounded m (es ++ (e ∷ []))
IsBounded-append m [] e h k = k
IsBounded-append m (send message ∷ es) e (now, h) k = (now, IsBounded-append m es e h k)
IsBounded-append m (set_cursor x y ∷ es) e h k = IsBounded-append m es e h k

module _ (o : F64) (a : CaptureArgs) where
  abbrev Inv : Capture → Type 0
  Inv r = IsBounded a.max_delta r.shared.effects

  abbrev Sound : Outcome → Type 0
  Sound (go_on r) = Inv r
  Sound (leave r) = Inv r
  Sound (panicked r) = ⊥

  if-Sound : (b : Bool) (x y : Outcome) → Sound x → Sound y → Sound (if b then x else y)
  if-Sound true x y hx hy = hx
  if-Sound false x y hx hy = hy

  if_bounded :
      (b : Bool) (x y : Shared)
      → IsBounded a.max_delta x.effects
      → IsBounded a.max_delta y.effects
      → IsBounded a.max_delta (if b then x else y).effects
  if_bounded true x y hx hy = hx
  if_bounded false x y hx hy = hy

  told :
      (es : List Effect) (x y : ℤ)
      → IsBounded a.max_delta es
      → IsBounded a.max_delta (es ++ (send (mouse_set_position x y) ∷ []))
  told es x y h = IsBounded-append a.max_delta es (send (mouse_set_position x y)) h (tt, tt)

  skip-Inv : (every : ℕ) (n : Note) (r : Capture) → Inv r → Inv (skip every n r)
  unfolding skip
  skip-Inv every n r h =
      if_bounded ((r.skipped_count + 1) % 2 ^ 64 % every == 0) (note n r.shared) r.shared h h

  enter-Sound :
      (w : World) (current ret : Point) (r : Capture)
      → Inv r
      → Sound (enter o a w current r (some ret))
  unfolding enter start_hooks
  enter-Sound w current ret r h =
      let entry =
        remote_entry_position o current a.virtual_screen a.switch_edge a.remote_width
          a.remote_height in
      if-Sound w.send_ok _ _
        (IsBounded-append a.max_delta
          (r.shared.effects ++ (send (mouse_set_position entry.x entry.y) ∷ []))
          (set_cursor a.lock_x a.lock_y) (told r.shared.effects entry.x entry.y h) tt)
        h

  forward-Sound :
      (w : World) (raw_dx raw_dy dx dy : ℤ) (r : Capture)
      → Inv r
      → IsWithin a.max_delta dx
      → IsWithin a.max_delta dy
      → Sound (forward o a w raw_dx raw_dy r (some dx) (some dy))
  forward-Sound w raw_dx raw_dy dx dy r h hx hy =
      let count = (r.sent_count + 1) % 2 ^ 64 in
      let sent : Shared = emit (send (mouse_move dx dy)) r.shared in
      let counted : Shared = record sent {
        role = "controller";
        connected = true;
        last_event = capturing count r.skipped_count raw_dx raw_dy dx dy;
      } in
      let moved =
        IsBounded-append a.max_delta r.shared.effects (send (mouse_move dx dy)) h ((hx, hy), tt) in
      if-Sound (is_zero dx && is_zero dy) _ _ h
        (if-Sound w.send_ok _ _ (if_bounded (count % 15 == 0) counted sent moved moved) h)

  move_by-Sound :
      (w : World) (gain : o.Carrier) (raw_dx raw_dy : ℤ) (r : Capture)
      → IsCoord a.max_delta
      → pos 0 ≤ℤ a.max_delta
      → Inv r
      → Sound (move_by o a w gain raw_dx raw_dy r)
  unfolding move_by
  move_by-Sound w gain raw_dx raw_dy r fits nonneg h =
      let low = sub_i32 (pos 0) a.max_delta in
      let le : low ≤ℤ a.max_delta = omega i32_laws in
      rw
        (
          clamp_i32-some (scaled o gain raw_dx) low a.max_delta le,
          clamp_i32-some (scaled o gain raw_dy) low a.max_delta le,
        )
        (forward-Sound w raw_dx raw_dy (clamp_value (scaled o gain raw_dx) low a.max_delta)
          (clamp_value (scaled o gain raw_dy) low a.max_delta) r h
          (clamp_value_within (scaled o gain raw_dx) low a.max_delta le)
          (clamp_value_within (scaled o gain raw_dy) low a.max_delta le))

  watch_edge-Sound :
      (w : World) (current : Point) (r : Capture)
      → HasMargins a.virtual_screen a.edge_margin
      → Inv r
      → Sound (watch_edge o a w current r)
  unfolding watch_edge
  watch_edge-Sound w current r roomy h =
      let (ret, answers, _, _) =
        local_return_position_lem current a.virtual_screen a.switch_edge a.edge_margin roomy in
      rw answers (
        if-Sound (is_cursor_at_edge current a.virtual_screen a.switch_edge a.edge_margin) _ _
          (enter-Sound w current ret r h) (skip-Inv 60 (waiting current.x current.y) r h))

  parked :
      (es : List Effect)
      → IsBounded a.max_delta es
      → IsBounded a.max_delta (es ++ (set_cursor a.lock_x a.lock_y ∷ []))
  parked es h = IsBounded-append a.max_delta es (set_cursor a.lock_x a.lock_y) h tt

  remote_move-Sound :
      (w : World) (gain : o.Carrier) (current : Point) (r : Capture)
      → IsCoord a.max_delta
      → pos 0 ≤ℤ a.max_delta
      → Inv r
      → Sound (remote_move o a w gain current r)
  unfolding remote_move
  remote_move-Sound w gain current r fits nonneg h =
      let safe = parked r.shared.effects h in
      let p = park a r in
      let raw_dx = sub_i32 current.x a.lock_x in
      let raw_dy = sub_i32 current.y a.lock_y in
      let (acc_x, acc_y) = drain (pos 0) (pos 0) w.raw_deltas in
      let threshold = warp_threshold a.max_delta in
      let jumped = is_over threshold raw_dx || is_over threshold raw_dy in
      let warped : Note = warp_ignored raw_dx raw_dy in
      if-Sound a.has_raw _ _ (move_by-Sound w gain acc_x acc_y p fits nonneg safe) (
        if-Sound (ltb 0 r.ignored_warp_frames) _ _ safe (
          if-Sound jumped (go_on (skip 20 warped p)) (move_by o a w gain raw_dx raw_dy p)
            (skip-Inv 20 warped p safe) (move_by-Sound w gain raw_dx raw_dy p fits nonneg safe)))

  turn-Sound :
      (w : World) (gain : o.Carrier) (r : Capture)
      → IsCoord a.max_delta
      → pos 0 ≤ℤ a.max_delta
      → HasMargins a.virtual_screen a.edge_margin
      → Inv r
      → Sound (turn o a w gain r)
  unfolding turn mirror_move
  turn-Sound w gain r fits nonneg roomy h = if-Sound w.pause_pressed _ _ h (go w.cursor_position)
    where
      go : (p : Option Point) → Sound (at_position o a w gain r p)
      go none = h
      go (some current) =
          if-Sound (a.remote_mode && not r.remote_active) _ _ (watch_edge-Sound w current r roomy h)
            (if-Sound a.remote_mode _ _ (remote_move-Sound w gain current r fits nonneg h) (
              let last = last_or o current r.last_mirror_pos in
              move_by-Sound w gain (sub_i32 current.x last.x) (sub_i32 current.y last.y)
                (record r { last_mirror_pos = some current }) fits nonneg h))

  if_stopped :
      (b : Bool) (x y : Shared)
      → x.capture_running ≡ false
      → y.capture_running ≡ false
      → (if b then x else y).capture_running ≡ false
  if_stopped true x y hx hy = hx
  if_stopped false x y hx hy = hy

  finish-IsTame : (r : Capture) → Inv r → IsTame a.max_delta (ended (finish a r))
  unfolding finish
  finish-IsTame r h =
      let stopped : Shared = record r.shared { capture_running = false } in
      let home : Shared = emit (set_cursor r.return_x r.return_y) stopped in
      let back = a.remote_mode && r.remote_active in
      (
        if_bounded back home stopped
            (IsBounded-append a.max_delta r.shared.effects (set_cursor r.return_x r.return_y) h tt)
            h,
        (if_stopped back home stopped refl refl, refl, refl, refl, refl),
      )

  settle-IsTame : (out : Outcome) → Sound out → IsTame a.max_delta (settle a out)
  settle-IsTame (go_on r) h = h
  settle-IsTame (leave r) h = finish-IsTame r h
  settle-IsTame (panicked r) h = h

  if-IsTame :
      (b : Bool) (x y : Standing)
      → IsTame a.max_delta x
      → IsTame a.max_delta y
      → IsTame a.max_delta (if b then x else y)
  if-IsTame true x y hx hy = hx
  if-IsTame false x y hx hy = hy

  onward :
      (gain : o.Carrier) (s : Standing) (ws : List World)
      → ((r : Capture) → Inv r → IsTame a.max_delta (run o a gain r ws))
      → IsTame a.max_delta s
      → IsTame a.max_delta (elim s [
        | looping r' ↦ run o a gain r' ws
        | ended r' ↦ ended r'
        | crashed r' ↦ crashed r'
      ])
  onward gain (looping r) ws next h = next r h
  onward gain (ended r) ws next h = h
  onward gain (crashed r) ws next h = absurd h

  -- On a virtual screen with room for the edge margins, with a max_delta from 0 to 2^28, through any
  -- turns, from a log in which every relative move is at most max_delta in either direction: the capture
  -- never panics, every relative move it sends is at most max_delta in either direction, whatever the
  -- gain, the floats and the jumps of the pointer, and once it has ended it is marked stopped, and no
  -- hook is in place or flagged.
  pub run-IsTame :
      (gain : o.Carrier) (r : Capture) (ws : List World)
      → IsCoord a.max_delta
      → pos 0 ≤ℤ a.max_delta
      → HasMargins a.virtual_screen a.edge_margin
      → IsBounded a.max_delta r.shared.effects
      → IsTame a.max_delta (run o a gain r ws)
  unfolding run step
  run-IsTame gain r [] fits nonneg roomy h = h
  run-IsTame gain r (w ∷ ws) fits nonneg roomy h =
      onward gain (step o a gain w r) ws (λ r' h'. run-IsTame gain r' ws fits nonneg roomy h')
        (if-IsTame w.running _ _
          (settle-IsTame (turn o a w gain r) (turn-Sound w gain r fits nonneg roomy h))
          (finish-IsTame r h))
