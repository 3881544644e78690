-- ===== src/Session/Receiver/Input.antt =====
-- The messages that move, click and type on this machine, and the clipboard messages.
use Prim.Native.String.{String, len}
use tail_kvm.Base.{
  ℕ, ◌+◌, ◌*◌, ◌/◌, ◌%◌, ◌^◌, ltb, ◌||◌, Option, none, some, List, ◌==◌, if◌then◌else◌,
}
use tail_kvm.Base.Int.{ℤ}
use tail_kvm.Net.Protocol.{WireMessage, mouse_set_position, clipboard_text, clipboard_image}
use tail_kvm.Session.Receiver.{
  Injection, move_to, position_applied, applied, failed, position_failed_after, decode_dib_failed,
  mark_text, set_text, mark_dib, set_dib, Session, World, emit, note, note_active, is_due, perform,
}
use tail_kvm.Session.Receiver.Report.{send_current_mouse_position, notify_injection_failure}

-- The arm of a failed injection.
abbrev refused : World → WireMessage → String → String → Session → Session
refused w m kind err s = note (failed m) (notify_injection_failure w kind err s)

-- `if let Err(err) = send_current_mouse_position(..)`
unfoldable pub echo_position : World → WireMessage → Session → Session
unfolding send_current_mouse_position
echo_position w m s =
    let (s', ok) = send_current_mouse_position w s in
    if ok then s' else note (position_failed_after m) s'

-- `KeyboardText` and `KeyboardKey`: the injection, and its report.
unfoldable pub apply_input : World → WireMessage → String → Injection → Session → Session
unfolding notify_injection_failure
apply_input w m kind i s =
    let (s', e) = perform w i s in
    elim e [ none ↦ note_active (applied m) s' | some err ↦ refused w m kind err s' ]

-- `MouseWheel`, `MouseButton` and `MouseMove` also echo the cursor position.
unfoldable pub apply_pointer : World → WireMessage → String → Injection → Session → Session
unfolding notify_injection_failure echo_position
apply_pointer w m kind i s =
    let (s', e) = perform w i s in
    elim e [
      | none ↦ echo_position w m (note_active (applied m) s')
      | some err ↦ refused w m kind err s'
    ]

-- The count of `MouseSetPosition` and the state line, on the first one and on every 30th.
unfoldable pub count_position : ℤ → ℤ → Session → Session
count_position x y s =
    let count = (s.setpos_count + 1) % 2 ^ 64 in
    let s' = record s { setpos_count = count } in
    if count == 1 || (count % 30 == 0) then note_active (position_applied x y count) s' else s'

-- The echo, at most one per 100 ms.
unfoldable pub echo_throttled : World → WireMessage → Session → Session
unfolding echo_position
echo_throttled w m s =
    if is_due s.last_setpos_echo 100 w.now
    then echo_position w m (record s { last_setpos_echo = some w.now })
    else s

unfoldable pub apply_set_position : World → ℤ → ℤ → Session → Session
unfolding notify_injection_failure echo_throttled count_position
apply_set_position w x y s =
    let m = mouse_set_position x y in
    let (s', e) = perform w (move_to x y) s in
    elim e [
      | none ↦ echo_throttled w m (count_position x y s')
      | some err ↦ refused w m "mouse_set_position" err s'
    ]

unfoldable pub apply_clipboard_text : World → String → Session → Session
apply_clipboard_text w text s =
    let m = clipboard_text text in
    let s' = emit (set_text text) (emit (mark_text text) s) in
    if w.set_text_ok text then note_active (applied m) s' else note (failed m) s'

abbrev max_clipboard_image_bytes : ℕ
max_clipboard_image_bytes = 8 * 1024 * 1024

-- `decode_dib` of apps/tailkvm-ui/src-tauri/src/clipboard_sync.rs: the encoded text is capped first.
unfoldable pub decode_dib : (String → Option (List ℕ)) → String → Option (List ℕ)
decode_dib decode_base64 text =
    if ltb (max_clipboard_image_bytes / 3 * 4 + 64) (len text) then none else decode_base64 text

unfoldable pub apply_clipboard_image : World → String → Session → Session
unfolding decode_dib
apply_clipboard_image w dib_base64 s =
    let m = clipboard_image dib_base64 in
    elim (decode_dib w.decode_base64 dib_base64) [
      | none ↦ note decode_dib_failed s
      | some dib ↦
          let s' = emit (set_dib dib) (emit (mark_dib dib) s) in
          if w.set_dib_ok dib then note_active (applied m) s' else note (failed m) s'
    ]
