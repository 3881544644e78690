-- ===== src/Forwarding/KeyboardTurn.antt =====
-- The loop of the keyboard forwarding thread, turn by turn, its start and its end
-- (apps/tailkvm-ui/src-tauri/src/forwarding.rs).
use Prim.Native.String.{String}
use tail_kvm.Base.{
  ℕ, Bool, true, false, not, ◌&&◌, ◌||◌, Option, none, some, List, [], ◌∷◌, ◌++◌, map, ◌==◌,
  if◌then◌else◌,
}
use text.Mathlib.Text.{◌==◌ as str_eq}
use tail_kvm.Base.Int.{ℤ, pos, abs}
use tail_kvm.Base.I32.{sub_i32, leb_ℤ, wrap32}
use tail_kvm.Net.Protocol.{keyboard_text}
use tail_kvm.Ime.Mode.{ImeModeState, off, armed, composing, suspended, as_str, observe_composition}
use tail_kvm.Forwarding.{
  active_target_present, Instant, watch_target, is_stale, has_elapsed,
  start_keyboard_hook_forwarding, stop_keyboard_hook_forwarding,
}
use tail_kvm.Forwarding.Health
use tail_kvm.Forwarding.Health.{Health, Checked, not_due, checked, lost, check_health}
use tail_kvm.Forwarding.Log.{release_key}
use tail_kvm.Forwarding.Anchor.{resolve_ime_anchor}
use tail_kvm.Forwarding.Keyboard.{
  key, failsafe, Received, event, timeout, disconnected, target_vanished, reinstalled, lost_hook,
  marker_degraded, started, stopped, World, Keyboard, Outcome, go_on, leave, panicked, note,
  clear_flag, push, release_pressed_keys, is_armed, handle_key, handle_failsafe,
}

-- The committed texts are forwarded; the outcome of a send is ignored.
unfoldable pub forward_commits : List String → Keyboard → Keyboard
forward_commits [] k = k
forward_commits (text ∷ texts) k =
    forward_commits texts (if str_eq text "" then k else push (keyboard_text text) k)

abbrev pub same_mode : ImeModeState → ImeModeState → Bool
same_mode off off = true
same_mode armed armed = true
same_mode composing composing = true
same_mode suspended suspended = true
same_mode _ _ = false

abbrev pub opens : ImeModeState → Bool
opens composing = true
opens _ = false

-- The mode follows the composition flag; when a composition opens, every held key is released.
unfoldable pub observe : World → Keyboard → Keyboard
unfolding observe_composition as_str release_pressed_keys
observe w k =
    let next = observe_composition k.ime_mode w.is_composing in
    let free : Keyboard = if opens next then release_pressed_keys k else k in
    if same_mode next k.ime_mode
    then k
    else record free { ime_mode = next; shown_mode = as_str next }

abbrev pub ime_reposition_threshold_px : ℤ
ime_reposition_threshold_px = pos 48

-- `(a - b).abs() >= IME_REPOSITION_THRESHOLD_PX`
unfoldable pub is_far : ℤ → ℤ → Bool
unfolding abs wrap32 sub_i32
is_far a b = leb_ℤ ime_reposition_threshold_px (wrap32 (abs (sub_i32 a b)))

abbrev pub placed : Keyboard → Option (ℤ × ℤ) → Outcome
placed k none = panicked k
placed k (some (x, y)) =
    if is_far x k.ime_window_anchor.0 || is_far y k.ime_window_anchor.1
    then go_on (record k { ime_window_anchor = (x, y) })
    else go_on k

-- Between compositions the capture window follows the anchor.
unfoldable pub reposition : World → Keyboard → Outcome
unfolding resolve_ime_anchor is_far
reposition w k =
    if is_armed k.ime_mode && has_elapsed k.ime_anchor_checked 300 w.now_anchor
    then placed (record k { ime_anchor_checked = w.now_checked })
        (resolve_ime_anchor w.settings w.ime_anchor w.desktop)
    else go_on k

abbrev pub receive : World → Keyboard → Received → Outcome
receive w k timeout = go_on k
receive w k disconnected = leave k
receive w k (event failsafe) = handle_failsafe k
receive w k (event (key vk scan_code down extended)) = handle_key w k vk scan_code down extended

-- The hook in its slot after a check, and what the check reports.
abbrev pub checked_hook : World → Keyboard → Health × Checked → Outcome
checked_hook w k (h, not_due) = receive w (record k { health = h }) w.received
checked_hook w k (h, lost) = leave (record k {
  health = h;
  hook = record k.hook { running = false; installed = false };
  last_event = lost_hook;
})
checked_hook w k (h, checked anew warned) =
    let kept : Keyboard = record k {
      health = h;
      hook = if anew then record k.hook { installed = true } else k.hook;
      last_event = if warned then marker_degraded else if anew then reinstalled else k.last_event;
    } in
    receive w kept w.received

abbrev pub after_reposition : World → Outcome → Outcome
after_reposition w (go_on k) = checked_hook w k (check_health w.probe k.health)
after_reposition w (leave k) = leave k
after_reposition w (panicked k) = panicked k

unfoldable pub turn : World → Keyboard → Outcome
unfolding active_target_present watch_target forward_commits observe reposition check_health
    handle_key handle_failsafe
turn w k =
    let absent = watch_target (active_target_present w.target) w.now k.active_absent_since in
    let watched : Keyboard = record k { active_absent_since = absent } in
    if is_stale absent w.now'
    then leave (clear_flag (note target_vanished watched))
    else after_reposition w (reposition w (observe w (forward_commits w.commits watched)))

-- Only the thread of the current generation owns the flag, the hook and the pass-through.
abbrev pub is_current : Keyboard → Bool
is_current k = k.hook.generation == k.my_gen

-- After the loop.
unfoldable pub finish : Keyboard → Keyboard
unfolding stop_keyboard_hook_forwarding
finish k = record k {
  passthrough = if k.ime_capture && is_current k then false else k.passthrough;
  ime_capture = false;
  hook = if is_current k then stop_keyboard_hook_forwarding k.hook else k.hook;
  pressed_keys = [];
  sends = k.sends ++ map release_key k.pressed_keys;
  shown_mode = "off";
  last_event = stopped k.event_count;
}

-- The thread at the start of its loop, after the hook has been installed; `held` are the modifiers
-- that are down already: Ctrl, Alt, Win and Shift.
unfoldable pub begin : Keyboard → Bool × Bool × Bool × Bool → Instant → ℕ → Keyboard
begin before (ctrl_held, alt_held, win_held, shift_held) now seen = record before {
  my_gen = before.hook.generation;
  passthrough = false;
  event_count = 0;
  pressed_keys = [];
  ctrl_down = ctrl_held;
  alt_down = alt_held;
  win_down = win_held;
  shift_down = shift_held;
  health = Health.fresh now seen;
  ime_capture = false;
  ime_toggle_held = false;
  ime_mode = off;
  ime_window_anchor = (pos 0, pos 0);
  ime_anchor_checked = now;
  active_absent_since = none;
  last_event = started;
  sends = [];
}

-- A history: turns of the loop; a stop and a new start by other threads, which claims the next generation
-- and takes the pass-through down if it is not refused; and what a newer thread does to the pass-through.
pub data Event : Type 0 where
  turned : World → Event
  stop_called : Event
  start_called : (install_ok : Bool) → Event
  newer_sets : (passthrough : Bool) → Event

pub data Standing : Type 0 where
  looping ended crashed : Keyboard → Standing

abbrev pub settle : Outcome → Standing
settle (go_on k) = looping k
settle (leave k) = ended (finish k)
settle (panicked k) = crashed k

-- `while running && generation == my_gen { .. }`, and what follows it.
unfoldable pub advance : Event → Keyboard → Standing
unfolding turn finish stop_keyboard_hook_forwarding start_keyboard_hook_forwarding
advance (turned w) k =
    if k.hook.running && is_current k then settle (turn w k) else ended (finish k)
advance stop_called k = looping (record k { hook = stop_keyboard_hook_forwarding k.hook })
advance (start_called install_ok) k = looping (record k {
  hook = (start_keyboard_hook_forwarding install_ok k.hook).0;
  passthrough = if k.hook.running || not install_ok then k.passthrough else false;
})
advance (newer_sets passthrough) k =
    looping (record k { passthrough = if is_current k then k.passthrough else passthrough })

unfoldable pub run : Keyboard → List Event → Standing
unfolding advance
run k [] = looping k
run k (e ∷ es) = elim (advance e k) [
  | looping k' ↦ run k' es
  | ended k' ↦ ended k'
  | crashed k' ↦ crashed k'
]
