-- ===== src/Legacy/Turn.antt =====
-- The turns of the older capture loop (apps/tailkvm-ui/src-tauri/src/legacy_capture.rs).
use tail_kvm.Base.{
  ℕ, ◌+◌, ◌-◌, ◌%◌, ◌^◌, Bool, true, false, not, ◌&&◌, ◌||◌, Option, none, some, List, [], ◌∷◌,
  ◌==◌, ltb, if◌then◌else◌,
}
use tail_kvm.Base.Int.{ℤ, pos, ltb_ℤ, abs}
use tail_kvm.Base.I32.{add_i32, sub_i32, max_i32, wrap32, clamp_i32}
use tail_kvm.Float.{F64}
use tail_kvm.Net.Protocol.{mouse_set_position, mouse_move}
use tail_kvm.Core.Geometry.{Point, is_cursor_at_edge, local_return_position, remote_entry_position}
use tail_kvm.Forwarding.{
  Started, already_running, started, start_failed, start_mouse_hook_forwarding,
  stop_mouse_hook_forwarding, start_keyboard_hook_forwarding, stop_keyboard_hook_forwarding,
}
use tail_kvm.Router.Steps.{drain}
use tail_kvm.Router.RemoteTurn.{is_zero}
use tail_kvm.Legacy.{
  CaptureArgs, Note, armed, mirror_started, failsafe, read_error, enter_failed, channel_closed,
  mouse_hook_running, mouse_hook_started, mouse_hook_failed, keyboard_hook_running,
  keyboard_hook_started, keyboard_hook_failed, waiting, entered, warp_ignored, capturing, stopped,
  send, set_cursor, Shared, Capture, World, note, emit,
}

-- How a turn ends: the loop goes on, is left by `break`, or the task panics.
pub data Outcome : Type 0 where
  go_on leave panicked : Capture → Outcome

abbrev mouse_note : Started → Note
mouse_note already_running = mouse_hook_running
mouse_note started = mouse_hook_started
mouse_note start_failed = mouse_hook_failed

abbrev keyboard_note : Started → Note
keyboard_note already_running = keyboard_hook_running
keyboard_note started = keyboard_hook_started
keyboard_note start_failed = keyboard_hook_failed

-- Both hooks are started; one that does not start is only noted.
unfoldable pub start_hooks : World → Shared → Shared
unfolding start_mouse_hook_forwarding start_keyboard_hook_forwarding
start_hooks w s =
    let (mouse, m) = start_mouse_hook_forwarding w.mouse_hook_ok s.mouse_hook in
    let s' : Shared = record s { mouse_hook = mouse; last_event = mouse_note m } in
    let (keyboard, k) = start_keyboard_hook_forwarding w.keyboard_hook_ok s'.keyboard_hook in
    record s' { keyboard_hook = keyboard; last_event = keyboard_note k }

-- A turn that sends nothing; every `every`-th of them is reported.
unfoldable pub skip : ℕ → Note → Capture → Capture
skip every n r =
    let count = (r.skipped_count + 1) % 2 ^ 64 in
    record r {
      skipped_count = count;
      shared = if count % every == 0 then note n r.shared else r.shared;
    }

abbrev pub count_skip : Capture → Capture
count_skip r = record r { skipped_count = (r.skipped_count + 1) % 2 ^ 64 }

abbrev pub park : CaptureArgs → Capture → Capture
park a r = record r { shared = emit (set_cursor a.lock_x a.lock_y) r.shared }

abbrev double : ℤ → ℤ
double n = add_i32 n n

-- `(max_delta * 8).max(800)`, on an i32
abbrev pub warp_threshold : ℤ → ℤ
warp_threshold max_delta = max_i32 (double (double (double max_delta))) (pos 800)

-- `raw.abs() > threshold`
unfoldable pub is_over : ℤ → ℤ → Bool
unfolding abs wrap32
is_over threshold raw = ltb_ℤ threshold (wrap32 (abs raw))

module _ (o : F64) where
  -- Control moves to the remote, which is entered at `remote_entry_position`.
  unfoldable pub enter : CaptureArgs → World → Point → Capture → Option Point → Outcome
  unfolding start_hooks remote_entry_position
  enter a w current r none = panicked r
  enter a w current r (some ret) =
      let entry =
        remote_entry_position o current a.virtual_screen a.switch_edge a.remote_width
          a.remote_height in
      let returning : Capture = record r { return_x = ret.x; return_y = ret.y } in
      let told : Shared = emit (send (mouse_set_position entry.x entry.y)) r.shared in
      let hooked : Shared = start_hooks w (record told { remote_control_active = true }) in
      if w.send_ok
      then go_on (record returning {
        remote_active = true;
        ignored_warp_frames = 3;
        shared = record (emit (set_cursor a.lock_x a.lock_y) hooked) {
          role = "controller";
          connected = true;
          last_event = entered entry.x entry.y;
        };
      })
      else leave (record returning {
        shared = record r.shared { connected = false; last_event = enter_failed };
      })

  -- Remote mode, before control has moved: the edge is watched.
  unfoldable pub watch_edge : CaptureArgs → World → Point → Capture → Outcome
  unfolding is_cursor_at_edge local_return_position enter skip
  watch_edge a w current r =
      if is_cursor_at_edge current a.virtual_screen a.switch_edge a.edge_margin
      then enter a w current r
          (local_return_position current a.virtual_screen a.switch_edge a.edge_margin)
      else go_on (skip 60 (waiting current.x current.y) r)

  -- The scaled and clamped delta is sent.
  abbrev pub forward : CaptureArgs → World → ℤ → ℤ → Capture → Option ℤ → Option ℤ → Outcome
  forward a w raw_dx raw_dy r none dy = panicked r
  forward a w raw_dx raw_dy r (some dx) none = panicked r
  forward a w raw_dx raw_dy r (some dx) (some dy) =
      let count = (r.sent_count + 1) % 2 ^ 64 in
      let sent : Shared = emit (send (mouse_move dx dy)) r.shared in
      if is_zero dx && is_zero dy
      then go_on (count_skip r)
      else if w.send_ok
      then go_on (record r {
        sent_count = count;
        shared =
            if count % 15 == 0
            then record sent {
              role = "controller";
              connected = true;
              last_event = capturing count r.skipped_count raw_dx raw_dy dx dy;
            }
            else sent;
      })
      else leave
          (record r { shared = record r.shared { connected = false; last_event = channel_closed } })

  -- `((raw as f64) * gain).round() as i32`
  abbrev pub scaled : o.Carrier → ℤ → ℤ
  scaled gain raw = o.round_i32 (o.mul (o.of_i32 raw) gain)

  unfoldable pub move_by : CaptureArgs → World → o.Carrier → ℤ → ℤ → Capture → Outcome
  unfolding clamp_i32
  move_by a w gain raw_dx raw_dy r =
      let low = sub_i32 (pos 0) a.max_delta in
      forward a w raw_dx raw_dy r (clamp_i32 (scaled gain raw_dx) low a.max_delta)
        (clamp_i32 (scaled gain raw_dy) low a.max_delta)

  -- Where the deltas come from: the device, or the distance from the lock point, to which the pointer is
  -- put back each time.
  unfoldable pub remote_move : CaptureArgs → World → o.Carrier → Point → Capture → Outcome
  unfolding drain move_by skip is_over
  remote_move a w gain current r =
      let (acc_x, acc_y) = drain (pos 0) (pos 0) w.raw_deltas in
      let raw_dx = sub_i32 current.x a.lock_x in
      let raw_dy = sub_i32 current.y a.lock_y in
      let threshold = warp_threshold a.max_delta in
      if a.has_raw
      then move_by a w gain acc_x acc_y (park a r)
      else if ltb 0 r.ignored_warp_frames
      then go_on
          (count_skip (park a (record r { ignored_warp_frames = r.ignored_warp_frames - 1 })))
      else if is_over threshold raw_dx || is_over threshold raw_dy
      then go_on (skip 20 (warp_ignored raw_dx raw_dy) (park a r))
      else move_by a w gain raw_dx raw_dy (park a r)

  abbrev pub last_or : Point → Option Point → Point
  last_or current none = current
  last_or current (some p) = p

  -- Mirror mode: the moves of the local pointer.
  unfoldable pub mirror_move : CaptureArgs → World → o.Carrier → Point → Capture → Outcome
  unfolding move_by
  mirror_move a w gain current r =
      let last = last_or current r.last_mirror_pos in
      move_by a w gain (sub_i32 current.x last.x) (sub_i32 current.y last.y)
        (record r { last_mirror_pos = some current })

  abbrev pub at_position : CaptureArgs → World → o.Carrier → Capture → Option Point → Outcome
  at_position a w gain r none = go_on (record r { shared = note read_error r.shared })
  at_position a w gain r (some current) =
      if a.remote_mode && not r.remote_active
      then watch_edge a w current r
      else if a.remote_mode
      then remote_move a w gain current r
      else mirror_move a w gain current r

  unfoldable pub turn : CaptureArgs → World → o.Carrier → Capture → Outcome
  unfolding watch_edge remote_move mirror_move
  turn a w gain r =
      if w.pause_pressed
      then leave (record r { shared = note failsafe r.shared })
      else at_position a w gain r w.cursor_position

-- The local variables before the loop.
unfoldable pub start : CaptureArgs → Shared → Capture
start a s = record {
  shared = record s {
    role = "controller";
    connected = true;
    last_event = if a.remote_mode then armed else mirror_started;
  };
  remote_active = not a.remote_mode;
  sent_count = 0;
  skipped_count = 0;
  ignored_warp_frames = 0;
  last_mirror_pos = none;
  return_x = a.lock_x;
  return_y = a.lock_y;
}

-- After the loop.
unfoldable pub finish : CaptureArgs → Capture → Capture
unfolding stop_mouse_hook_forwarding stop_keyboard_hook_forwarding
finish a r =
    let ended : Shared = record r.shared { capture_running = false } in
    let home : Shared =
      if a.remote_mode && r.remote_active
      then emit (set_cursor r.return_x r.return_y) ended
      else ended in
    record r {
      shared = record home {
        mouse_hook = stop_mouse_hook_forwarding home.mouse_hook;
        keyboard_hook = stop_keyboard_hook_forwarding home.keyboard_hook;
        last_event = stopped r.sent_count r.skipped_count r.return_x r.return_y;
      };
    }

-- Where the capture stands after a list of turns.
pub data Standing : Type 0 where
  looping ended crashed : Capture → Standing

abbrev pub settle : CaptureArgs → Outcome → Standing
settle a (go_on r) = looping r
settle a (leave r) = ended (finish a r)
settle a (panicked r) = crashed r

module _ (o : F64) where
  -- `while capture_running { .. }`, and what follows it.
  unfoldable pub step : CaptureArgs → o.Carrier → World → Capture → Standing
  unfolding turn finish
  step a gain w r = if w.running then settle a (turn o a w gain r) else ended (finish a r)

  unfoldable pub run : CaptureArgs → o.Carrier → Capture → List World → Standing
  unfolding step
  run a gain r [] = looping r
  run a gain r (w ∷ ws) = elim (step a gain w r) [
    | looping r' ↦ run a gain r' ws
    | ended r' ↦ ended r'
    | crashed r' ↦ crashed r'
  ]
