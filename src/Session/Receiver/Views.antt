-- ===== src/Session/Receiver/Views.antt =====
-- No handler but those of keys and buttons touches what is held or pressed.
use Prim.Native.String.{String}
use tail_kvm.Base.{
  ℕ, ◌+◌, ◌%◌, ◌^◌, ◌≡◌, refl, ◌∙◌, Bool, true, false, ◌&&◌, ◌||◌, Bool-cases, Option-cases, inl,
  inr, Option, none, some, ◌==◌,
}
use tail_kvm.Base.Int.{ℤ}
use tail_kvm.Base.Dict.{string_eq}
use tail_kvm.Net.Protocol.{
  WireMessage, hello_ack, heartbeat_ack, mouse_set_position, disconnect, protocol_version,
  protocol_compatible,
}
use tail_kvm.Session.Held.{key_eq}
use tail_kvm.Session.Receiver.{
  move_to, write, inject, mark_text, set_text, mark_dib, set_dib, clear_abort, Session, World,
  MonitorTopology, emit, is_due,
}
use tail_kvm.Session.Receiver.Report.{
  hello_authorized, send_local_keyboard_layout, local_screen_info,
}
use tail_kvm.Session.Receiver.Input.{
  echo_throttled, count_position, apply_set_position, apply_clipboard_text, apply_clipboard_image,
  decode_dib,
}
use tail_kvm.Session.Receiver.Turn.{
  hello_reply, announce_layout, screen_announced, after_ack, judged, handle_hello, handle_heartbeat,
  resent, topology_seen, is_stale, check_failsafe,
}
use tail_kvm.Session.Receiver.Pressed.{view, view-emit, view_notify, view_echo}

pub view_throttled :
    (w : World) (m : WireMessage) (s : Session) → view (echo_throttled w m s) ≡ view s
unfolding echo_throttled
view_throttled w m s = elim (Bool-cases (is_due s.last_setpos_echo 100 w.now)) [
  | inl due ↦ rw (due, echo_throttled) (view_echo w m (record s { last_setpos_echo = some w.now }))
  | inr early ↦ rw (early, echo_throttled)
]

pub view_count : (x y : ℤ) (s : Session) → view (count_position x y s) ≡ view s
unfolding count_position
view_count x y s =
    elim (Bool-cases
      ((s.setpos_count + 1) % 2 ^ 64 == 1 || ((s.setpos_count + 1) % 2 ^ 64 % 30 == 0))) [
        | inl due ↦ rw (due, count_position)
        | inr early ↦ rw (early, count_position)
      ]

pub view_set_position :
    (w : World) (x y : ℤ) (s : Session) → view (apply_set_position w x y s) ≡ view s
unfolding apply_set_position
view_set_position w x y s = elim (Option-cases (w.inject_error (move_to x y))) [
  | inl ok ↦
      rw (ok, apply_set_position)
        (view_throttled w (mouse_set_position x y)
            (count_position x y (emit (inject (move_to x y)) s))
          ∙ view_count x y (emit (inject (move_to x y)) s)
          ∙ view-emit (inject (move_to x y)) s refl)
  | inr (err, bad) ↦
      rw (bad, apply_set_position)
        (view_notify w "mouse_set_position" err (emit (inject (move_to x y)) s)
          ∙ view-emit (inject (move_to x y)) s refl)
]

pub view_clipboard_text :
    (w : World) (t : String) (s : Session) → view (apply_clipboard_text w t s) ≡ view s
unfolding apply_clipboard_text
view_clipboard_text w t s =
    let both =
      view-emit (set_text t) (emit (mark_text t) s) refl ∙ view-emit (mark_text t) s refl in
    elim (Bool-cases (w.set_text_ok t)) [
      | inl ok ↦ rw (ok, apply_clipboard_text) both
      | inr bad ↦ rw (bad, apply_clipboard_text) both
    ]

pub view_clipboard_image :
    (w : World) (t : String) (s : Session) → view (apply_clipboard_image w t s) ≡ view s
unfolding apply_clipboard_image
view_clipboard_image w t s = elim (Option-cases (decode_dib w.decode_base64 t)) [
  | inl bad ↦ rw (bad, apply_clipboard_image)
  | inr (dib, ok) ↦
      let both =
        view-emit (set_dib dib) (emit (mark_dib dib) s) refl ∙ view-emit (mark_dib dib) s refl in
      elim (Bool-cases (w.set_dib_ok dib)) [
        | inl set ↦ rw (ok, apply_clipboard_image) (rw set both)
        | inr unset ↦ rw (ok, apply_clipboard_image) (rw unset both)
      ]
]

pub view_layout : (w : World) (s : Session) → view (announce_layout w s) ≡ view s
unfolding send_local_keyboard_layout
view_layout w s = elim (Bool-cases (send_local_keyboard_layout w s).1) [
  | inl ok ↦ rw ok (view-emit _ s refl)
  | inr bad ↦ rw bad (view-emit _ s refl)
]

pub view_screen :
    (w : World) (s : Session) (t : Option MonitorTopology) → view (screen_announced w s t) ≡ view s
view_screen w s none = refl
view_screen w s (some t) = elim (Bool-cases (w.write_ok (local_screen_info w.machine_name t))) [
  | inl ok ↦ rw ok (view-emit (write (local_screen_info w.machine_name t)) s refl)
  | inr bad ↦ rw bad (view-emit (write (local_screen_info w.machine_name t)) s refl)
]

view-after_ack :
    (w : World) (accepted : Bool) (s : Session) (ok : Bool)
    → view (after_ack w accepted s ok).0 ≡ view s
unfolding after_ack
view-after_ack w accepted s false = refl
view-after_ack w false s true = refl
view-after_ack w true s true = view_screen w (announce_layout w s) w.topology ∙ view_layout w s

pub view_hello :
    (w : World) (s : Session) (name version : String) (token : Option String) (protocol : ℕ)
    → view (handle_hello w s name version token protocol).0 ≡ view s
unfolding handle_hello judged
view_hello w s name version token protocol =
    let accepted : Bool = w.accepting && hello_authorized w.required_token token in
    let (reported, message) = hello_reply w accepted name version (protocol_compatible protocol) in
    let ack : WireMessage = hello_ack w.machine_name accepted message protocol_version in
    view-after_ack w accepted (emit (write ack) (judged w s accepted name reported))
      (w.write_ok ack)
    ∙ view-emit (write ack) (judged w s accepted name reported) refl

pub view_heartbeat :
    (w : World) (s : Session) (seq : ℕ) → view (handle_heartbeat w s seq).0 ≡ view s
unfolding handle_heartbeat
view_heartbeat w s seq = elim (Bool-cases (w.write_ok (heartbeat_ack seq w.unix_ms))) [
  | inl ok ↦ rw (ok, handle_heartbeat) (view-emit (write (heartbeat_ack seq w.unix_ms)) s refl)
  | inr bad ↦ rw (bad, handle_heartbeat) (view-emit (write (heartbeat_ack seq w.unix_ms)) s refl)
]

view-resent :
    (w : World) (s : Session) (same : Bool) (m : WireMessage) (size : ℤ × ℤ)
    → view (resent w s same m size) ≡ view s
unfolding resent
view-resent w s true m size = refl
view-resent w s false m size = elim (Bool-cases (w.write_ok m)) [
  | inl ok ↦ rw ok (view-emit (write m) s refl)
  | inr bad ↦ rw bad (view-emit (write m) s refl)
]

pub view_topology :
    (w : World) (s : Session) (t : Option MonitorTopology) → view (topology_seen w s t) ≡ view s
view_topology w s none = refl
view_topology w s (some t) = view-resent w s _ _ _

pub view_bye :
    (s : Session) (reason : String)
    → view (emit (write (disconnect reason)) (emit clear_abort s)) ≡ view s
view_bye s reason =
    view-emit (write (disconnect reason)) (emit clear_abort s) refl ∙ view-emit clear_abort s refl

pub view_failsafe : (w : World) (s : Session) → view (check_failsafe w s).0 ≡ view s
unfolding check_failsafe
view_failsafe w s = elim (Bool-cases w.abort) [
  | inl a ↦ rw (a, check_failsafe) (view_bye s "receiver emergency reset")
  | inr a ↦ elim (Bool-cases w.pause_pressed) [
    | inl p ↦ rw (a, p, check_failsafe) (view_bye s "receiver failsafe (Ctrl+Alt+Pause)")
    | inr p ↦ elim (Bool-cases (is_stale s.last_heartbeat w.now)) [
      | inl old ↦ rw (a, p, old, check_failsafe) (view-emit clear_abort s refl)
      | inr fresh ↦ rw (a, p, fresh, check_failsafe) (view-emit clear_abort s refl)
    ]
  ]
]
