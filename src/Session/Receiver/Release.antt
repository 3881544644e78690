-- ===== src/Session/Receiver/Release.antt =====
-- No key and no button that a session pressed stays down after it.
use Prim.Native.String.{String}
use tail_kvm.Base.{
  ◌≡◌, refl, ◌∙◌, Bool, true, false, Bool-cases, inl, inr, List, [], ◌∷◌, map, if◌then◌else◌,
}
use tail_kvm.Base.Dict.{string_eq}
use tail_kvm.Net.Protocol.{
  WireMessage, hello, heartbeat, mouse_set_position, mouse_move, mouse_button, mouse_wheel,
  keyboard_text, keyboard_key, keyboard_layout, clipboard_text, clipboard_image,
}
use tail_kvm.Session.Held.{Key, key_eq, is_down, is_down-append, is_down-release}
use tail_kvm.Session.Receiver.{
  move_by, wheel, text, button, key, Snapshot, write, inject, Session, World, Event, received,
  topology_tick, failsafe_tick, outbound, note, before_handshake,
}
use tail_kvm.Session.Receiver.Report.{apply_peer_keyboard_layout}
use tail_kvm.Session.Receiver.Turn.{
  start, handle_accepted, handle_message, check_topology, finish, turn, run,
}
use tail_kvm.Session.Receiver.Pressed.{
  keys_of, buttons_of, keys_of-append, buttons_of-append, IsTracked, IsTracked-of_view, view-emit,
  view_input, view_pointer, IsTracked-key, IsTracked-button, releases, keys_of-releases,
  buttons_of-releases, start-IsTracked,
}
use tail_kvm.Session.Receiver.Views.{
  view_set_position, view_clipboard_text, view_clipboard_image, view_hello, view_heartbeat,
  view_topology, view_failsafe,
}

IsTracked-accepted :
    (w : World) (s : Session) (m : WireMessage) → IsTracked s → IsTracked (handle_accepted w s m).0
unfolding handle_accepted apply_peer_keyboard_layout
IsTracked-accepted w s (keyboard_layout i k _ _ l) t = IsTracked-of_view s _ refl t
IsTracked-accepted w s (mouse_set_position x y) t =
    IsTracked-of_view s _ (view_set_position w x y s) t
IsTracked-accepted w s (clipboard_text c) t = IsTracked-of_view s _ (view_clipboard_text w c s) t
IsTracked-accepted w s (clipboard_image c) t = IsTracked-of_view s _ (view_clipboard_image w c s) t
IsTracked-accepted w s (keyboard_text c) t =
    IsTracked-of_view s _
      (view_input w (keyboard_text c) "keyboard_text" (text c) s
        ∙ view-emit (inject (text c)) s refl)
      t
IsTracked-accepted w s (keyboard_key vk scan down ext) t =
    IsTracked-of_view _ _
      (view_input w (keyboard_key vk scan down ext) "keyboard_key" (key vk scan down ext) _)
      (IsTracked-key s vk scan down ext t)
IsTracked-accepted w s (mouse_wheel d h) t =
    IsTracked-of_view s _
      (view_pointer w (mouse_wheel d h) "mouse_wheel" (wheel d h) s
        ∙ view-emit (inject (wheel d h)) s refl)
      t
IsTracked-accepted w s (mouse_button name down) t =
    IsTracked-of_view _ _
      (view_pointer w (mouse_button name down) "mouse_button" (button name down) _)
      (IsTracked-button s name down t)
IsTracked-accepted w s (mouse_move dx dy) t =
    IsTracked-of_view s _
      (view_pointer w (mouse_move dx dy) "mouse_move" (move_by dx dy) s
        ∙ view-emit (inject (move_by dx dy)) s refl)
      t
IsTracked-accepted w s (heartbeat seq _) t = IsTracked-of_view s _ (view_heartbeat w s seq) t
IsTracked-accepted w s _ t = IsTracked-of_view s _ refl t

IsTracked-gate :
    (w : World) (s : Session) (m : WireMessage) (b : Bool)
    → IsTracked s
    → IsTracked (if b then handle_accepted w s m else (note before_handshake s, true)).0
IsTracked-gate w s m true t = IsTracked-accepted w s m t
IsTracked-gate w s m false t = IsTracked-of_view s _ refl t

IsTracked-message :
    (w : World) (s : Session) (m : WireMessage) → IsTracked s → IsTracked (handle_message w s m).0
unfolding handle_message
IsTracked-message w s (hello name version token protocol) t =
    IsTracked-of_view s _ (view_hello w s name version token protocol) t
IsTracked-message w s m t = IsTracked-gate w s m s.accepted t

IsTracked-turn : (w : World) (s : Session) (e : Event) → IsTracked s → IsTracked (turn w s e).0
unfolding turn check_topology
IsTracked-turn w s (received m) t = IsTracked-message w s m t
IsTracked-turn w s (outbound m) t = elim (Bool-cases (w.write_ok m)) [
  | inl ok ↦ rw (ok, turn) (IsTracked-of_view s _ (view-emit (write m) s refl) t)
  | inr bad ↦ rw (bad, turn) (IsTracked-of_view s _ (view-emit (write m) s refl) t)
]
IsTracked-turn w s topology_tick t = IsTracked-of_view s _ (view_topology w s w.topology) t
IsTracked-turn w s failsafe_tick t = IsTracked-of_view s _ (view_failsafe w s) t
IsTracked-turn w s _ t = IsTracked-of_view s _ refl t

-- What the effects of a finished session leave down.
pub record IsReleased (s : Session) : Type 0 where
  pub keys_up : (k : Key) → is_down k false (keys_of s.effects) ≡ false
  pub buttons_up : (b : String) → is_down b false (buttons_of s.effects) ≡ false

same_off : (b : Bool) → (if b then false else b) ≡ false
same_off true = refl
same_off false = refl

finish-IsReleased : (s : Session) → IsTracked s → IsReleased (finish s)
unfolding finish
finish-IsReleased s t = record {
  keys_up = λ k.
      rw
        (
          keys_of-append s.effects (releases s.held_keys s.held_buttons),
          keys_of-releases s.held_keys s.held_buttons,
          is_down-append k false (keys_of s.effects) (map (λ k. (k, false)) s.held_keys),
          is_down-release k (is_down k false (keys_of s.effects)) s.held_keys,
          t.keys_tracked k,
        )
        (same_off (is_down k false (keys_of s.effects)));
  buttons_up = λ b.
      rw
        (
          buttons_of-append s.effects (releases s.held_keys s.held_buttons),
          buttons_of-releases s.held_keys s.held_buttons,
          is_down-append b false (buttons_of s.effects) (map (λ b. (b, false)) s.held_buttons),
          is_down-release b (is_down b false (buttons_of s.effects)) s.held_buttons,
          t.buttons_tracked b,
        )
        (same_off (is_down b false (buttons_of s.effects)));
}

IsReleased-run :
    (s : Session) (ts : List (World × Event))
    → IsTracked s
    → (run s ts).1 ≡ true
    → IsReleased (run s ts).0
unfolding run
IsReleased-run s [] t left = absurd (cc left)
IsReleased-run s ((w, e) ∷ ts) t left = elim (Bool-cases (turn w s e).1) [
  | inl on ↦
      rw (on, run)
        (IsReleased-run (turn w s e).0 ts (IsTracked-turn w s e t) (rw (on, run) at left))
  | inr off ↦ rw (off, run) (finish-IsReleased (turn w s e).0 (IsTracked-turn w s e t))
]

-- Whenever the loop of a receiver session has been left, by an error, a stale heartbeat, a failsafe
-- or a disconnect in the middle of a press, the last injection attempted for each key and each
-- mouse button, if there was one, was its release.
pub run-IsReleased :
    (before : Snapshot) (peer : String) (ts : List (World × Event))
    → (run (start before peer) ts).1 ≡ true
    → IsReleased (run (start before peer) ts).0
unfolding start
run-IsReleased before peer ts left =
    IsReleased-run (start before peer) ts (start-IsTracked before peer) left
