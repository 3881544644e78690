-- ===== src/Session/Controller/Beats.antt =====
-- The heartbeats of a controller session.
use Prim.Native.String.{String}
use package.text.Mathlib.Text.{◌==◌ as str_eq}
use tail_kvm.Base.{
  ℕ, zero, suc, ◌+◌, ◌%◌, ◌^◌, ◌≡◌, refl, ap, ◌∙◌, Bool, true, false, not, ◌&&◌, Bool-cases, inl,
  inr, Option, none, some, List, [], ◌∷◌, ◌++◌, append-nil,
}
use tail_kvm.Base.Int.{ℤ}
use tail_kvm.Net.Protocol.{
  WireMessage, hello_ack, heartbeat, heartbeat_ack, mouse_position, keyboard_layout, clipboard_text,
  clipboard_image, screen_info, input_injection_failed,
}
use tail_kvm.Session.Receiver.Input.{decode_dib}
use tail_kvm.Session.Relay.{relay_message}
use tail_kvm.Session.Controller.{
  Effect, write, command, mark_text, set_text, mark_dib, set_dib, relay_text, relay_image,
  record_screen, stop_capture, deactivate_remote, Session, World, emit,
}
use tail_kvm.Session.Controller.Turn.{
  at_return_edge, handle_position, apply_image, handle_message, write_batch, report_batch,
  last_reported, send_commands,
}

-- The numbers of the heartbeats among the effects, in order.
pub beats_of : List Effect → List ℕ
beats_of [] = []
beats_of (write (heartbeat seq _) ∷ es) = seq ∷ beats_of es
beats_of (_ ∷ es) = beats_of es

-- 1, 2, ..., n, each as a u64
pub up_to : ℕ → List ℕ
up_to zero = []
up_to (suc n) = up_to n ++ ((n + 1) % 2 ^ 64 ∷ [])

beats_of-append : (es fs : List Effect) → beats_of (es ++ fs) ≡ beats_of es ++ beats_of fs
unfolding beats_of
beats_of-append [] fs = refl
beats_of-append (write (heartbeat seq _) ∷ es) fs = ap (λ r. seq ∷ r) (beats_of-append es fs)
beats_of-append (_ ∷ es) fs = beats_of-append es fs

abbrev is_beat : Effect → Bool
is_beat (write (heartbeat _ _)) = true
is_beat _ = false

beats_of-plain : (e : Effect) → is_beat e ≡ false → beats_of (e ∷ []) ≡ []
unfolding beats_of
beats_of-plain (write (heartbeat _ _)) h = cc
beats_of-plain _ h = refl

-- What the watchdog and the heartbeats look at.
abbrev pub view : Session → ℕ × ℕ × List ℕ
view s = (s.heartbeat_seq, s.last_inbound, beats_of s.effects)

view-emit : (e : Effect) (s : Session) → is_beat e ≡ false → view (emit e s) ≡ view s
view-emit e s h =
    cc (beats_of-append s.effects (e ∷ []), beats_of-plain e h, append-nil (beats_of s.effects))

view_position : (w : World) (s : Session) (x y : ℤ) → view (handle_position w s x y) ≡ view s
view_position w s x y =
    elim (Bool-cases (w.remote.active && (not w.remote.seamless && at_return_edge w.remote x y))) [
      | inl back ↦
          rw back
            (view-emit deactivate_remote (emit stop_capture s) refl ∙ view-emit stop_capture s refl)
      | inr on ↦ rw on
    ]

view_image :
    (w : World) (s : Session) (t : String) (d : Option (List ℕ))
    → view (apply_image w s t d) ≡ view s
view_image w s t none = refl
view_image w s t (some dib) =
    view-emit (relay_image t (relay_message w.sessions w.origin_name))
      (emit (set_dib dib) (emit (mark_dib dib) s)) refl
    ∙ view-emit (set_dib dib) (emit (mark_dib dib) s) refl
    ∙ view-emit (mark_dib dib) s refl

pub view_message :
    (w : World) (s : Session) (m : WireMessage) → view (handle_message w s m) ≡ view s
unfolding handle_message
view_message w s (hello_ack n a m p) = refl
view_message w s (keyboard_layout i k _ _ l) = refl
view_message w s (heartbeat_ack seq _) = refl
view_message w s (screen_info n x y ms) =
    view-emit (record_screen n (record { width = x; height = y; monitors = ms })) s refl
view_message w s (clipboard_text t) =
    view-emit (relay_text t (relay_message w.sessions w.origin_name))
      (emit (set_text t) (emit (mark_text t) s)) refl
    ∙ view-emit (set_text t) (emit (mark_text t) s) refl
    ∙ view-emit (mark_text t) s refl
view_message w s (clipboard_image t) = view_image w s t (decode_dib w.decode_base64 t)
view_message w s (mouse_position x y) = view_position w s x y
view_message w s (input_injection_failed k d) = refl
view_message w s _ = refl

view_batch :
    (w : World) (s : Session) (ms : List WireMessage) → view (write_batch w s ms).0 ≡ view s
unfolding write_batch
view_batch w s [] = refl
view_batch w s (m ∷ ms) = elim (Bool-cases (w.write_ok m)) [
  | inl ok ↦
      rw (ok, write_batch) (view_batch w (emit (command m) s) ms ∙ view-emit (command m) s refl)
  | inr bad ↦ rw (bad, write_batch) (view-emit (command m) s refl)
]

view_report : (s : Session) (m : Option WireMessage) → view (report_batch s m) ≡ view s
view_report s none = refl
view_report s (some m) = refl

pub view_commands :
    (w : World) (s : Session) (ms : List WireMessage) → view (send_commands w s ms).0 ≡ view s
unfolding send_commands
view_commands w s ms = elim (Bool-cases (write_batch w s ms).1) [
  | inl ok ↦
      rw (ok, send_commands)
        (view_report (write_batch w s ms).0 (last_reported none ms) ∙ view_batch w s ms)
  | inr bad ↦ rw (bad, send_commands) (view_batch w s ms)
]

-- The heartbeats so far are numbered from 1 without a gap, and counted, up to the wrap of a u64.
IsCounted : Session → Type 0
IsCounted s = (n : ℕ) × (beats_of s.effects ≡ up_to n) × (s.heartbeat_seq ≡ n % 2 ^ 64)
