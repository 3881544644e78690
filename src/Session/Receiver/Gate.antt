-- ===== src/Session/Receiver/Gate.antt =====
-- Nothing that a peer sends reaches this machine's input or clipboard before an accepted Hello.
use Prim.Native.String.{String}
use tail_kvm.Base.{
  ℕ, ◌≡◌, refl, Bool, true, false, ◌&&◌, ◌||◌, Bool-cases, inl, inr, Option, none, some, List, [],
  ◌∷◌, ◌++◌, if◌then◌else◌,
}
use tail_kvm.Base.Int.{ℤ}
use tail_kvm.Net.Protocol.{WireMessage, hello, disconnect}
use tail_kvm.Session.Receiver.{
  Note, Snapshot, Effect, write, inject, mark_text, set_text, mark_dib, set_dib, clear_abort,
  drop_sender, Session, World, Event, received, undecodable, end_of_stream, failed_read,
  outbound_closed, topology_tick, failsafe_tick, cancelled, outbound, emit, note, MonitorTopology,
  before_handshake, ack_failed, emergency_reset, failsafe, heartbeat_stale, resent_screen_info,
  outbound_failed, decode_error, closed, read_error, replaced,
}
use tail_kvm.Session.Receiver.Report.{hello_authorized}
use tail_kvm.Session.Receiver.Turn.{
  start, after_ack, judged, handle_hello, handle_accepted, handle_message, resent, topology_seen,
  check_topology, is_stale, check_failsafe, turn, finish, run,
}

-- An effect on the input or the clipboard of this machine.
abbrev pub is_input : Effect → Bool
is_input (inject i) = true
is_input (mark_text t) = true
is_input (set_text t) = true
is_input (mark_dib d) = true
is_input (set_dib d) = true
is_input _ = false

pub any_input : List Effect → Bool
any_input [] = false
any_input (e ∷ es) = is_input e || any_input es

any_input-append : (es fs : List Effect) → any_input (es ++ fs) ≡ (any_input es || any_input fs)
unfolding any_input
any_input-append [] fs = refl
any_input-append (e ∷ es) fs =
    rw (any_input-append es fs) (or_assoc (is_input e) (any_input es) (any_input fs))
  where
    or_assoc : (a b c : Bool) → (a || (b || c)) ≡ ((a || b) || c)
    or_assoc true b c = refl
    or_assoc false b c = refl

-- A session that has accepted no Hello, holds nothing and has touched nothing.
pub record IsQuiet (s : Session) : Type 0 where
  pub not_accepted : s.accepted ≡ false
  pub no_keys : s.held_keys ≡ []
  pub no_buttons : s.held_buttons ≡ []
  pub no_input : any_input s.effects ≡ false

-- A turn that brings no Hello which the flag and the token let through.
abbrev pub IsRefused : World × Event → Type 0
IsRefused (w, received (hello name version token protocol)) =
    (w.accepting && hello_authorized w.required_token token) ≡ false
IsRefused _ = Unit

abbrev pub AllRefused : List (World × Event) → Type 0
AllRefused [] = Unit
AllRefused (t ∷ ts) = IsRefused t × AllRefused ts

no_input-emit :
    (e : Effect) (s : Session)
    → is_input e ≡ false
    → any_input s.effects ≡ false
    → any_input (emit e s).effects ≡ false
unfolding any_input
no_input-emit e s h k = rw (any_input-append s.effects (e ∷ []), h, k)

IsQuiet-emit : (e : Effect) (s : Session) → is_input e ≡ false → IsQuiet s → IsQuiet (emit e s)
IsQuiet-emit e s h q = record {
  not_accepted = q.not_accepted;
  no_keys = q.no_keys;
  no_buttons = q.no_buttons;
  no_input = no_input-emit e s h q.no_input;
}

IsQuiet-note : (n : Note) (s : Session) → IsQuiet s → IsQuiet (note n s)
IsQuiet-note n s q = record {
  not_accepted = q.not_accepted;
  no_keys = q.no_keys;
  no_buttons = q.no_buttons;
  no_input = q.no_input;
}

IsQuiet-after_ack :
    (w : World) (s : Session) (ok : Bool) → IsQuiet s → IsQuiet (after_ack w false s ok).0
unfolding after_ack
IsQuiet-after_ack w s false q = IsQuiet-note ack_failed s q
IsQuiet-after_ack w s true q = q

IsQuiet-judged :
    (w : World) (s : Session) (name : String) (n : Note)
    → IsQuiet s
    → IsQuiet (judged w s false name n)
unfolding judged
IsQuiet-judged w s name n q = record {
  not_accepted = refl;
  no_keys = q.no_keys;
  no_buttons = q.no_buttons;
  no_input = q.no_input;
}

IsQuiet-hello :
    (w : World) (s : Session) (name version : String) (token : Option String) (protocol : ℕ)
    → (w.accepting && hello_authorized w.required_token token) ≡ false
    → IsQuiet s
    → IsQuiet (handle_hello w s name version token protocol).0
unfolding handle_hello
IsQuiet-hello w s name version token protocol refused q = rw refused (
    IsQuiet-after_ack w _ _
      (IsQuiet-emit (write _) (judged w s false name _) refl (IsQuiet-judged w s name _ q)))

closed_gate :
    (b : Bool) (x : Session × Bool) (s : Session)
    → b ≡ false
    → IsQuiet s
    → IsQuiet (if b then x else (note before_handshake s, true)).0
closed_gate b x s h q = rw h (IsQuiet-note before_handshake s q)

IsQuiet-message :
    (w : World) (s : Session) (m : WireMessage)
    → IsRefused (w, received m)
    → IsQuiet s
    → IsQuiet (handle_message w s m).0
unfolding handle_message
IsQuiet-message w s (hello name version token protocol) refused q =
    IsQuiet-hello w s name version token protocol refused q
IsQuiet-message w s m refused q = closed_gate s.accepted (handle_accepted w s m) s q.not_accepted q

IsQuiet-bye :
    (s : Session) (reason : String) (n : Note)
    → IsQuiet s
    → IsQuiet (note n (emit (write (disconnect reason)) (emit clear_abort s)))
IsQuiet-bye s reason n q = IsQuiet-note n (emit (write (disconnect reason)) (emit clear_abort s)) (
    IsQuiet-emit (write (disconnect reason)) (emit clear_abort s) refl
      (IsQuiet-emit clear_abort s refl q))

IsQuiet-failsafe : (w : World) (s : Session) → IsQuiet s → IsQuiet (check_failsafe w s).0
unfolding check_failsafe
IsQuiet-failsafe w s q = elim (Bool-cases w.abort) [
  | inl a ↦ rw (a, check_failsafe) (IsQuiet-bye s "receiver emergency reset" emergency_reset q)
  | inr a ↦ elim (Bool-cases w.pause_pressed) [
    | inl p ↦
        rw (a, p, check_failsafe) (IsQuiet-bye s "receiver failsafe (Ctrl+Alt+Pause)" failsafe q)
    | inr p ↦ elim (Bool-cases (is_stale s.last_heartbeat w.now)) [
      | inl old ↦
          rw (a, p, old, check_failsafe)
            (IsQuiet-note heartbeat_stale (emit clear_abort s) (IsQuiet-emit clear_abort s refl q))
      | inr fresh ↦ rw (a, p, fresh, check_failsafe) (IsQuiet-emit clear_abort s refl q)
    ]
  ]
]

IsQuiet-resized :
    (s : Session) (size : ℤ × ℤ) → IsQuiet s → IsQuiet (record s { last_screen_size = some size })
IsQuiet-resized s size q = record {
  not_accepted = q.not_accepted;
  no_keys = q.no_keys;
  no_buttons = q.no_buttons;
  no_input = q.no_input;
}

IsQuiet-resent :
    (w : World) (s : Session) (same : Bool) (m : WireMessage) (size : ℤ × ℤ)
    → IsQuiet s
    → IsQuiet (resent w s same m size)
unfolding resent
IsQuiet-resent w s true m size q = q
IsQuiet-resent w s false m size q = elim (Bool-cases (w.write_ok m)) [
  | inl ok ↦ rw ok (
      IsQuiet-note (resent_screen_info size.0 size.1) (emit (write m) s)
        (IsQuiet-emit (write m) s refl q))
  | inr bad ↦ rw bad (IsQuiet-emit (write m) s refl q)
]

IsQuiet-topology : (w : World) (s : Session) → IsQuiet s → IsQuiet (check_topology w s)
unfolding check_topology
IsQuiet-topology w s q = go w.topology
  where
    go : (t : Option MonitorTopology) → IsQuiet (topology_seen w s t)
    go none = q
    go (some t) =
        IsQuiet-resized _ (t.virtual_screen.width, t.virtual_screen.height)
          (IsQuiet-resent w s _ _ _ q)

IsQuiet-turn :
    (w : World) (s : Session) (e : Event) → IsRefused (w, e) → IsQuiet s → IsQuiet (turn w s e).0
unfolding turn
IsQuiet-turn w s (received m) refused q = IsQuiet-message w s m refused q
IsQuiet-turn w s undecodable refused q = IsQuiet-note decode_error s q
IsQuiet-turn w s end_of_stream refused q = IsQuiet-note closed s q
IsQuiet-turn w s failed_read refused q = IsQuiet-note read_error s q
IsQuiet-turn w s (outbound m) refused q = elim (Bool-cases (w.write_ok m)) [
  | inl ok ↦ rw (ok, turn) (IsQuiet-emit (write m) s refl q)
  | inr bad ↦
      rw (bad, turn)
        (IsQuiet-note outbound_failed (emit (write m) s) (IsQuiet-emit (write m) s refl q))
]
IsQuiet-turn w s outbound_closed refused q = q
IsQuiet-turn w s topology_tick refused q = IsQuiet-topology w s q
IsQuiet-turn w s failsafe_tick refused q = IsQuiet-failsafe w s q
IsQuiet-turn w s cancelled refused q = IsQuiet-note replaced s q

IsQuiet-finish : (s : Session) → IsQuiet s → IsQuiet (finish s)
unfolding finish
IsQuiet-finish s q = record {
  not_accepted = q.not_accepted;
  no_keys = refl;
  no_buttons = refl;
  no_input =
      rw (q.no_keys, q.no_buttons, any_input-append s.effects (drop_sender ∷ []), q.no_input)
        (unfold any_input in refl);
}

IsQuiet-run :
    (s : Session) (ts : List (World × Event)) → AllRefused ts → IsQuiet s → IsQuiet (run s ts).0
unfolding run
IsQuiet-run s [] refused q = q
IsQuiet-run s ((w, e) ∷ ts) (refused, rest) q =
    let q' = IsQuiet-turn w s e refused q in
    elim (Bool-cases (turn w s e).1) [
      | inl on ↦ rw (on, run) (IsQuiet-run (turn w s e).0 ts rest q')
      | inr off ↦ rw (off, run) (IsQuiet-finish (turn w s e).0 q')
    ]

-- As long as no Hello comes that the accept flag and the pairing token let through, a session ends or
-- goes on with nothing accepted, no key or button held, and no injection or clipboard call made,
-- whatever else the peer sends and however the session ends.
pub run-IsQuiet :
    (before : Snapshot) (peer : String) (ts : List (World × Event))
    → AllRefused ts
    → IsQuiet (run (start before peer) ts).0
unfolding start any_input
run-IsQuiet before peer ts refused =
    IsQuiet-run (start before peer) ts refused
      (record { not_accepted = refl; no_keys = refl; no_buttons = refl; no_input = refl })
