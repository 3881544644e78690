-- ===== src/Session/Receiver/Pressed.antt =====
-- The presses among the effects of a session, and that the record of held keys and buttons follows
-- them through every handler.
use Prim.Native.String.{String}
use tail_kvm.Base.{
  ℕ, ◌≡◌, refl, ap, Bool, true, false, Bool-cases, Option-cases, inl, inr, Option, none, some, List,
  [], ◌∷◌, ◌++◌, map, append-nil,
}
use tail_kvm.Base.Int.{ℤ}
use tail_kvm.Base.Dict.{string_eq}
use tail_kvm.Net.Protocol.{WireMessage, mouse_position, input_injection_failed}
use tail_kvm.Session.Held.{
  Key, key_eq, contains, track_key_press, track_button_press, is_down, contains-track,
  is_down-append, is_down_one,
}
use tail_kvm.Session.Receiver.{
  Injection, button, key, Snapshot, Effect, write, inject, drop_sender, applied, Session, World,
  emit, note_active, is_due,
}
use tail_kvm.Session.Receiver.Report.{
  position_sent, send_current_mouse_position, notify_injection_failure,
}
use tail_kvm.Session.Receiver.Input.{echo_position, apply_input, apply_pointer}
use tail_kvm.Session.Receiver.Turn.{start, release_key, release_button}

-- The presses and releases among the effects, in order.
pub keys_of : List Effect → List (Key × Bool)
keys_of [] = []
keys_of (inject (key vk scan_code down extended) ∷ es) =
    ((vk, scan_code, extended), down) ∷ keys_of es
keys_of (_ ∷ es) = keys_of es

pub buttons_of : List Effect → List (String × Bool)
buttons_of [] = []
buttons_of (inject (button name down) ∷ es) = (name, down) ∷ buttons_of es
buttons_of (_ ∷ es) = buttons_of es

pub keys_of-append : (es fs : List Effect) → keys_of (es ++ fs) ≡ keys_of es ++ keys_of fs
unfolding keys_of
keys_of-append [] fs = refl
keys_of-append (inject (key vk scan_code down extended) ∷ es) fs =
    ap (λ r. ((vk, scan_code, extended), down) ∷ r) (keys_of-append es fs)
keys_of-append (_ ∷ es) fs = keys_of-append es fs

pub buttons_of-append :
    (es fs : List Effect) → buttons_of (es ++ fs) ≡ buttons_of es ++ buttons_of fs
unfolding buttons_of
buttons_of-append [] fs = refl
buttons_of-append (inject (button name down) ∷ es) fs =
    ap (λ r. (name, down) ∷ r) (buttons_of-append es fs)
buttons_of-append (_ ∷ es) fs = buttons_of-append es fs

-- The record of held keys and buttons says what the effects so far have left down.
pub record IsTracked (s : Session) : Type 0 where
  pub keys_tracked : (k : Key) → contains k s.held_keys ≡ is_down k false (keys_of s.effects)
  pub buttons_tracked :
      (b : String) → contains b s.held_buttons ≡ is_down b false (buttons_of s.effects)

-- What the invariant looks at.
abbrev pub view : Session → List Key × List String × List (Key × Bool) × List (String × Bool)
view s = (s.held_keys, s.held_buttons, keys_of s.effects, buttons_of s.effects)

pub IsTracked-of_view : (s s' : Session) → view s' ≡ view s → IsTracked s → IsTracked s'
IsTracked-of_view s s' h t = record {
  keys_tracked = λ k. cc (h, t.keys_tracked k);
  buttons_tracked = λ b. cc (h, t.buttons_tracked b);
}

-- An effect that presses no key and no button.
abbrev pub is_plain : Effect → Bool
is_plain (inject (key vk scan_code down extended)) = false
is_plain (inject (button name down)) = false
is_plain _ = true

keys_of-plain : (e : Effect) → is_plain e ≡ true → keys_of (e ∷ []) ≡ []
unfolding keys_of
keys_of-plain (inject (key vk scan_code down extended)) h = cc
keys_of-plain _ h = refl

buttons_of-plain : (e : Effect) → is_plain e ≡ true → buttons_of (e ∷ []) ≡ []
unfolding buttons_of
buttons_of-plain (inject (button name down)) h = cc
buttons_of-plain _ h = refl

pub view-emit : (e : Effect) (s : Session) → is_plain e ≡ true → view (emit e s) ≡ view s
view-emit e s h = cc (
  keys_of-append s.effects (e ∷ []),
  buttons_of-append s.effects (e ∷ []),
  keys_of-plain e h,
  buttons_of-plain e h,
  append-nil (keys_of s.effects),
  append-nil (buttons_of s.effects),
)

pub view_notify :
    (w : World) (kind detail : String) (s : Session)
    → view (notify_injection_failure w kind detail s) ≡ view s
unfolding notify_injection_failure
view_notify w kind detail s = elim (Bool-cases (is_due s.last_inject_fail_notice 1000 w.now)) [
  | inl due ↦
      rw (due, notify_injection_failure)
        (view-emit (write (input_injection_failed kind detail)) s refl)
  | inr early ↦ rw (early, notify_injection_failure)
]

pub view_position : (w : World) (s : Session) → view (send_current_mouse_position w s).0 ≡ view s
unfolding send_current_mouse_position
view_position w s = go w.cursor
  where
    go : (c : Option (ℤ × ℤ)) → view (position_sent w s c).0 ≡ view s
    go none = refl
    go (some (x, y)) = view-emit (write (mouse_position x y)) s refl

pub view_echo : (w : World) (m : WireMessage) (s : Session) → view (echo_position w m s) ≡ view s
unfolding echo_position
view_echo w m s = elim (Bool-cases (send_current_mouse_position w s).1) [
  | inl ok ↦ rw (ok, echo_position) (view_position w s)
  | inr bad ↦ rw (bad, echo_position) (view_position w s)
]

-- Whatever its outcome, an injection leaves the view that its own effect makes.
pub view_input :
    (w : World) (m : WireMessage) (kind : String) (i : Injection) (s : Session)
    → view (apply_input w m kind i s) ≡ view (emit (inject i) s)
unfolding apply_input
view_input w m kind i s = elim (Option-cases (w.inject_error i)) [
  | inl ok ↦ rw (ok, apply_input)
  | inr (err, bad) ↦ rw (bad, apply_input) (view_notify w kind err (emit (inject i) s))
]

pub view_pointer :
    (w : World) (m : WireMessage) (kind : String) (i : Injection) (s : Session)
    → view (apply_pointer w m kind i s) ≡ view (emit (inject i) s)
unfolding apply_pointer
view_pointer w m kind i s = elim (Option-cases (w.inject_error i)) [
  | inl ok ↦ rw (ok, apply_pointer) (view_echo w m (note_active (applied m) (emit (inject i) s)))
  | inr (err, bad) ↦ rw (bad, apply_pointer) (view_notify w kind err (emit (inject i) s))
]

-- A press or release of a key, recorded and attempted.
pub IsTracked-key :
    (s : Session) (vk scan_code : ℕ) (down extended : Bool)
    → IsTracked s
    → IsTracked (
        emit
          (inject (key vk scan_code down extended))
          (record s { held_keys = track_key_press s.held_keys vk scan_code extended down }))
unfolding track_key_press keys_of buttons_of
IsTracked-key s vk scan_code down extended t = record {
  keys_tracked = λ k. rw (
    keys_of-append s.effects (inject (key vk scan_code down extended) ∷ []),
    is_down-append k false (keys_of s.effects) (((vk, scan_code, extended), down) ∷ []),
    is_down_one k (vk, scan_code, extended) (is_down k false (keys_of s.effects)) down,
    contains-track k (vk, scan_code, extended) s.held_keys down,
    t.keys_tracked k,
  );
  buttons_tracked = λ b.
      rw
        (
          buttons_of-append s.effects (inject (key vk scan_code down extended) ∷ []),
          append-nil (buttons_of s.effects),
        )
        (t.buttons_tracked b);
}

pub IsTracked-button :
    (s : Session) (name : String) (down : Bool)
    → IsTracked s
    → IsTracked (
        emit
          (inject (button name down))
          (record s { held_buttons = track_button_press s.held_buttons name down }))
unfolding track_button_press keys_of buttons_of
IsTracked-button s name down t = record {
  keys_tracked = λ k.
      rw (keys_of-append s.effects (inject (button name down) ∷ []), append-nil (keys_of s.effects))
        (t.keys_tracked k);
  buttons_tracked = λ b. rw (
    buttons_of-append s.effects (inject (button name down) ∷ []),
    is_down-append b false (buttons_of s.effects) ((name, down) ∷ []),
    is_down_one b name (is_down b false (buttons_of s.effects)) down,
    contains-track b name s.held_buttons down,
    t.buttons_tracked b,
  );
}

keys_of-released_keys : (ks : List Key) → keys_of (map release_key ks) ≡ map (λ k. (k, false)) ks
unfolding keys_of
keys_of-released_keys [] = refl
keys_of-released_keys (k ∷ ks) = ap (λ r. (k, false) ∷ r) (keys_of-released_keys ks)

keys_of-released_buttons : (bs : List String) → keys_of (map release_button bs) ≡ []
unfolding keys_of
keys_of-released_buttons [] = refl
keys_of-released_buttons (b ∷ bs) = keys_of-released_buttons bs

buttons_of-released_keys : (ks : List Key) → buttons_of (map release_key ks) ≡ []
unfolding buttons_of
buttons_of-released_keys [] = refl
buttons_of-released_keys (k ∷ ks) = buttons_of-released_keys ks

buttons_of-released_buttons :
    (bs : List String) → buttons_of (map release_button bs) ≡ map (λ b. (b, false)) bs
unfolding buttons_of
buttons_of-released_buttons [] = refl
buttons_of-released_buttons (b ∷ bs) = ap (λ r. (b, false) ∷ r) (buttons_of-released_buttons bs)

-- What the end of the function releases.
abbrev pub releases : List Key → List String → List Effect
releases ks bs = drop_sender ∷ (map release_key ks ++ map release_button bs)

pub keys_of-releases :
    (ks : List Key) (bs : List String) → keys_of (releases ks bs) ≡ map (λ k. (k, false)) ks
unfolding keys_of
keys_of-releases ks bs =
    rw
      (
        keys_of-append (map release_key ks) (map release_button bs),
        keys_of-released_keys ks,
        keys_of-released_buttons bs,
      )
      (append-nil (map (λ k. (k, false)) ks))

pub buttons_of-releases :
    (ks : List Key) (bs : List String) → buttons_of (releases ks bs) ≡ map (λ b. (b, false)) bs
unfolding buttons_of
buttons_of-releases ks bs = rw (
  buttons_of-append (map release_key ks) (map release_button bs),
  buttons_of-released_keys ks,
  buttons_of-released_buttons bs,
)

pub start-IsTracked : (before : Snapshot) (peer : String) → IsTracked (start before peer)
unfolding start keys_of buttons_of contains is_down
start-IsTracked before peer = record { keys_tracked = λ k. refl; buttons_tracked = λ b. refl }
