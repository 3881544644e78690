-- ===== src/Session/Receiver/Report.antt =====
-- The messages that the receiver sends by itself: its layout, its screens, its cursor, its failures
-- (apps/tailkvm-ui/src-tauri/src/session/wire.rs).
use Prim.Native.String.{String}
use text.Mathlib.Text.{◌==◌ as str_eq}
use tail_kvm.Base.{
  ℕ, Bool, true, false, Option, none, some, List, [], ◌∷◌, ◌++◌, map, ◌==◌, if◌then◌else◌,
}
use tail_kvm.Base.Int.{ℤ}
use tail_kvm.Base.I32.{sub_i32, leb_ℤ}
use tail_kvm.Net.Protocol.{
  WireMessage, keyboard_layout, screen_info, mouse_position, input_injection_failed,
}
use tail_kvm.Session.Receiver.{
  layout_match, layout_mismatch, Difference, input_locale, keyboard_type, Session,
  KeyboardLayoutInfo, MonitorTopology, World, is_due, send,
}

-- With no token configured every Hello passes; otherwise it must present exactly that token.
unfoldable pub hello_authorized : Option String → Option String → Bool
hello_authorized none presented = true
hello_authorized (some secret) none = false
hello_authorized (some secret) (some token) = str_eq token secret

unfoldable pub local_screen_info : String → MonitorTopology → WireMessage
local_screen_info machine_name topology =
    let vs = topology.virtual_screen in
    screen_info machine_name vs.width vs.height (
      map
        (λ r. (
          sub_i32 r.left vs.left,
          sub_i32 r.top vs.top,
          sub_i32 r.right vs.left,
          sub_i32 r.bottom vs.top,
        ))
        topology.monitors)

abbrev pub layout_message : KeyboardLayoutInfo → WireMessage
layout_message info =
    keyboard_layout info.language_id info.keyboard_type info.is_jis_keyboard info.is_japanese_locale
      info.label

unfoldable pub send_local_keyboard_layout : World → Session → Session × Bool
send_local_keyboard_layout w s = send w (layout_message w.keyboard) s

-- An error of the cursor query fails before anything is written.
abbrev pub position_sent : World → Session → Option (ℤ × ℤ) → Session × Bool
position_sent w s none = (s, false)
position_sent w s (some (x, y)) = send w (mouse_position x y) s

unfoldable pub send_current_mouse_position : World → Session → Session × Bool
send_current_mouse_position w s = position_sent w s w.cursor

-- At most one notice per second; the outcome of its write is ignored.
unfoldable pub notify_injection_failure : World → String → String → Session → Session
notify_injection_failure w kind detail s =
    if is_due s.last_inject_fail_notice 1000 w.now
    then (send w (input_injection_failed kind detail)
        (record s { last_inject_fail_notice = some w.now })).0
    else s

abbrev eq_ℤ : ℤ → ℤ → Bool
eq_ℤ a b = if leb_ℤ a b then leb_ℤ b a else false

-- `if diffs.is_empty() { None } else { Some(..) }`
abbrev some_unless_empty : List Difference → Option (List Difference)
some_unless_empty [] = none
some_unless_empty (d ∷ ds) = some (d ∷ ds)

-- `mismatch_with` of crates/tailkvm-win32/src/keyboard_layout.rs, its text by the axes it names.
unfoldable pub mismatch_with : KeyboardLayoutInfo → ℕ → ℤ → Option (List Difference)
mismatch_with info peer_language_id peer_keyboard_type =
    let diffs =
      (if info.language_id == peer_language_id then [] else input_locale ∷ [])
      ++ (if eq_ℤ info.keyboard_type peer_keyboard_type then [] else keyboard_type ∷ []) in
    some_unless_empty diffs

unfoldable pub apply_peer_keyboard_layout : World → ℕ → ℤ → String → Session → Session
unfolding mismatch_with
apply_peer_keyboard_layout w peer_language_id peer_keyboard_type peer_label s =
    let warning = mismatch_with w.keyboard peer_language_id peer_keyboard_type in
    record s {
      snapshot = record s.snapshot {
        local_keyboard_layout = some w.keyboard.label;
        peer_keyboard_layout = some peer_label;
        keyboard_layout_warning = warning;
        last_event = elim warning [
          | none ↦ layout_match peer_label
          | some _ ↦ layout_mismatch peer_label
        ];
      };
    }
