-- ===== src/Session/Controller/Watchdog.antt =====
-- The watchdog of a controller session on inbound traffic.
use tail_kvm.Base.{
  ℕ, ◌+◌, ◌*◌, ◌%◌, ◌^◌, ◌<◌, ◌≡◌, refl, sym, ap, true, false, Bool-cases, inl, inr, List, [], ◌∷◌,
  ◌++◌, arith,
}
use tail_kvm.Net.Protocol.{heartbeat}
use tail_kvm.Session.Coalesce.{push_all}
use tail_kvm.Session.Controller.{
  Session, World, Event, received, undecodable, end_of_stream, failed_read, commands_closed,
  heartbeat_tick, commands,
}
use tail_kvm.Session.Controller.Turn.{is_stale, tick, turn, run}
use tail_kvm.Session.Controller.Beats.{view_message, view_commands}

run_on :
    (w : World) (s : Session) (e : Event) (ts : List (World × Event))
    → (turn w s e).1 ≡ true
    → (run s ((w, e) ∷ ts)).1 ≡ false
    → (run (turn w s e).0 ts).1 ≡ false
unfolding run
run_on w s e ts go on = rw (go, run) at on

run_off :
    (w : World) (s : Session) (e : Event) (ts : List (World × Event))
    → (turn w s e).1 ≡ false
    → (run s ((w, e) ∷ ts)).1 ≡ false
    → ⊥
unfolding run
run_off w s e ts stop on = cc (rw (stop, run) at on)

-- When a line last arrived, given when one did before.
pub last_arrival : ℕ → List (World × Event) → ℕ
last_arrival before [] = before
last_arrival before ((w, received _) ∷ ts) = last_arrival w.now ts
last_arrival before ((w, undecodable) ∷ ts) = last_arrival w.now ts
last_arrival before ((w, _) ∷ ts) = last_arrival before ts

inbound_tick : (w : World) (s : Session) → (tick w s).0.last_inbound ≡ s.last_inbound
unfolding tick
inbound_tick w s = elim (Bool-cases (is_stale s.last_inbound w.now)) [
  | inl old ↦ rw (old, tick)
  | inr fresh ↦
      elim (Bool-cases (w.write_ok (heartbeat ((s.heartbeat_seq + 1) % 2 ^ 64) w.unix_ms))) [
        | inl ok ↦ rw (fresh, ok, tick)
        | inr bad ↦ rw (fresh, bad, tick)
      ]
]

-- A turn renews the arrival as the history says.
inbound_turn :
    (w : World) (s : Session) (e : Event) (ts : List (World × Event))
    → last_arrival s.last_inbound ((w, e) ∷ ts) ≡ last_arrival (turn w s e).0.last_inbound ts
unfolding turn last_arrival
inbound_turn w s (received m) ts =
    ap (λ t. last_arrival t ts) (cc (view_message w (record s { last_inbound = w.now }) m))
inbound_turn w s undecodable ts = refl
inbound_turn w s (commands first queued) ts =
    ap (λ t. last_arrival t ts) (cc (view_commands w s (push_all (first ∷ []) queued)))
inbound_turn w s heartbeat_tick ts = ap (λ t. last_arrival t ts) (sym (inbound_tick w s))
inbound_turn w s end_of_stream ts = refl
inbound_turn w s failed_read ts = refl
inbound_turn w s commands_closed ts = refl

tick_fresh :
    (w : World) (s : Session)
    → (run s ((w, heartbeat_tick) ∷ [])).1 ≡ false
    → is_stale s.last_inbound w.now ≡ false
unfolding run turn tick
tick_fresh w s on = ground arith

-- From a session with a given time of the last line, through any turns: if it is still running
-- after a further heartbeat tick, then the last line that arrived in these turns, or else the one
-- before them, came less than 8 s before that tick.
pub run_watchdog :
    (s : Session) (ts : List (World × Event)) (w : World)
    → (run s (ts ++ ((w, heartbeat_tick) ∷ []))).1 ≡ false
    → w.now < last_arrival s.last_inbound ts + 8000 * 1000000
unfolding last_arrival
run_watchdog s [] w on = ground (arith, tick_fresh w s on)
run_watchdog s ((v, e) ∷ ts) w on = elim (Bool-cases (turn v s e).1) [
  | inl go ↦
      rw (inbound_turn v s e ts)
        (run_watchdog (turn v s e).0 ts w (run_on v s e (ts ++ ((w, heartbeat_tick) ∷ [])) go on))
  | inr stop ↦ absurd (run_off v s e (ts ++ ((w, heartbeat_tick) ∷ [])) stop on)
]
