-- ===== src/Forwarding/MouseRelease.antt =====
-- When the mouse forwarding thread has ended, its hook is out and no button stays down on the peer
-- (apps/tailkvm-ui/src-tauri/src/forwarding.rs).
use Prim.Native.String.{String}
use tail_kvm.Base.{
  ℕ, ◌≡◌, refl, sym, ap, ◌∙◌, ◌⊎◌, inl, inr, Bool, true, false, Bool-cases, List, [], ◌∷◌, ◌++◌,
  map, append-nil, if◌then◌else◌,
}
use tail_kvm.Base.Dict.{string_eq}
use tail_kvm.Session.Held.{
  contains, track_button_press, contains-track, is_down, is_down-append, is_down_one,
  is_down-release,
}
use tail_kvm.Forwarding.{Instant, send_ok, active_target_present, watch_target, is_stale}
use tail_kvm.Forwarding.Health.{Health, Checked, not_due, checked, lost, check_health}
use tail_kvm.Forwarding.Log.{
  buttons_of, buttons_of-append, buttons_of-releases, release_button, TracksButtons,
}
use tail_kvm.Forwarding.Mouse.{
  MouseHookEvent, button, wheel, Received, event, timeout, disconnected, World, Mouse, Outcome,
  go_on, leave, message_of, tracked, forward, receive, checked_hook, turn, finish, begin, Event,
  turned, stop_called, Standing, looping, ended, settle, advance, run,
}

abbrev Tracks : Mouse → Type 0
Tracks m = TracksButtons m.pressed_buttons m.sends

forward-Tracks :
    (m : Mouse) (e : MouseHookEvent)
    → Tracks m
    → TracksButtons (tracked m.pressed_buttons e) (m.sends ++ (message_of e ∷ []))
unfolding tracked message_of track_button_press buttons_of
forward-Tracks m (wheel delta horizontal) h b =
    h b
    ∙ ap (is_down b false)
        (sym (append-nil (buttons_of m.sends)) ∙ sym (buttons_of-append m.sends _))
forward-Tracks m (button name down) h b =
    contains-track b name m.pressed_buttons down
    ∙ ap (λ d. if string_eq.beq name b then down else d) (h b)
    ∙ sym (is_down_one b name (is_down b false (buttons_of m.sends)) down)
    ∙ sym (is_down-append b false (buttons_of m.sends) ((name, down) ∷ []))
    ∙ ap (is_down b false) (sym (buttons_of-append m.sends _))

-- A turn keeps the record in step with what it has sent, and is left with the flag set only if the hook has
-- closed the channel.
abbrev Sound : World → Outcome → Type 0
Sound w (go_on m) = Tracks m
Sound w (leave m) = Tracks m × ((m.hook.running ≡ false) ⊎ (w.received ≡ disconnected))

forward-Sound : (w : World) (m : Mouse) (e : MouseHookEvent) → Tracks m → Sound w (forward w m e)
unfolding forward
forward-Sound w m e h = elim (Bool-cases (send_ok w.target')) [
  | inl sent ↦ rw (sent, forward) (forward-Tracks m e h)
  | inr closed ↦ rw (closed, forward) (forward-Tracks m e h, inl refl)
]

receive-Sound :
    (w : World) (m : Mouse) (r : Received) → w.received ≡ r → Tracks m → Sound w (receive w m r)
receive-Sound w m timeout e h = h
receive-Sound w m disconnected e h = (h, inr e)
receive-Sound w m (event ev) e h = forward-Sound w m ev h

checked_hook-Sound :
    (w : World) (m : Mouse) (r : Health × Checked) → Tracks m → Sound w (checked_hook w m r)
checked_hook-Sound w m (h, not_due) t = receive-Sound w _ w.received refl t
checked_hook-Sound w m (h, lost) t = (t, inl refl)
checked_hook-Sound w m (h, checked anew warned) t = receive-Sound w _ w.received refl t

turn-Sound : (w : World) (m : Mouse) → Tracks m → Sound w (turn w m)
unfolding turn
turn-Sound w m t =
    let absent = watch_target (active_target_present w.target) w.now m.active_absent_since in
    elim (Bool-cases (is_stale absent w.now')) [
      | inl stale ↦ rw (stale, turn) (t, inl refl)
      | inr live ↦
          rw (live, turn)
            (checked_hook-Sound w (record m { active_absent_since = absent })
              (check_health w.probe m.health) t)
    ]

-- The hook has closed the channel in one of the turns.
pub HasDisconnected : List Event → Type 0
HasDisconnected [] = ⊥
HasDisconnected (turned w ∷ es) = (w.received ≡ disconnected) ⊎ HasDisconnected es
HasDisconnected (stop_called ∷ es) = HasDisconnected es

-- The hook is out, no button that was sent down stays down, none is recorded, and the flag is cleared
-- unless the hook has closed the channel.
abbrev pub IsReleased : List Event → Mouse → Type 0
IsReleased es m =
    (m.hook.installed ≡ false)
    × ((b : String) → is_down b false (buttons_of m.sends) ≡ false)
    × (m.pressed_buttons ≡ [])
    × ((m.hook.running ≡ false) ⊎ HasDisconnected es)

abbrev pub KeepsButtons : List Event → Standing → Type 0
KeepsButtons es (looping m) = TracksButtons m.pressed_buttons m.sends
KeepsButtons es (ended m) = IsReleased es m

if_out : (b : Bool) → (if b then false else b) ≡ false
if_out true = refl
if_out false = refl

finish-IsReleased :
    (es : List Event) (m : Mouse)
    → Tracks m
    → (m.hook.running ≡ false) ⊎ HasDisconnected es
    → IsReleased es (finish m)
unfolding finish
finish-IsReleased es m t flag = (
  refl,
  λ b.
      ap (is_down b false) (
        buttons_of-append m.sends (map release_button m.pressed_buttons)
        ∙ ap (λ rs. buttons_of m.sends ++ rs) (buttons_of-releases m.pressed_buttons))
      ∙ is_down-append b false (buttons_of m.sends) _
      ∙ is_down-release b (is_down b false (buttons_of m.sends)) m.pressed_buttons
      ∙ ap (λ c. if c then false else is_down b false (buttons_of m.sends)) (t b)
      ∙ if_out (is_down b false (buttons_of m.sends)),
  refl,
  flag,
)

settle-KeepsButtons :
    (w : World) (es : List Event) (out : Outcome)
    → Sound w out
    → KeepsButtons (turned w ∷ es) (settle out)
settle-KeepsButtons w es (go_on m) t = t
settle-KeepsButtons w es (leave m) (t, inl off) = finish-IsReleased (turned w ∷ es) m t (inl off)
settle-KeepsButtons w es (leave m) (t, inr closed) =
    finish-IsReleased (turned w ∷ es) m t (inr (unfold HasDisconnected in inl closed))

advance-KeepsButtons :
    (e : Event) (es : List Event) (m : Mouse) → Tracks m → KeepsButtons (e ∷ es) (advance e m)
unfolding advance
advance-KeepsButtons stop_called es m t = t
advance-KeepsButtons (turned w) es m t = choose m.hook.running refl
  where
    choose :
        (b : Bool)
        → m.hook.running ≡ b
        → KeepsButtons (turned w ∷ es) (if b then settle (turn w m) else ended (finish m))
    choose true on = settle-KeepsButtons w es (turn w m) (turn-Sound w m t)
    choose false off = finish-IsReleased (turned w ∷ es) m t (inl off)

later : (e : Event) (es : List Event) (s : Standing) → KeepsButtons es s → KeepsButtons (e ∷ es) s
later e es (looping m) k = k
later e es (ended m) (out, up, none_held, inl off) = (out, up, none_held, inl off)
later (turned w) es (ended m) (out, up, none_held, inr closed) =
    (out, up, none_held, inr (unfold HasDisconnected in inr closed))
later stop_called es (ended m) (out, up, none_held, inr closed) =
    (out, up, none_held, inr (unfold HasDisconnected in closed))

run_from-KeepsButtons : (m : Mouse) (es : List Event) → Tracks m → KeepsButtons es (run m es)
unfolding run
run_from-KeepsButtons m [] t = t
run_from-KeepsButtons m (e ∷ es) t =
    onward (advance e m) (λ m' t'. later e es (run m' es) (run_from-KeepsButtons m' es t'))
      (advance-KeepsButtons e es m t)
  where
    onward :
        (s : Standing)
        → ((m' : Mouse) → Tracks m' → KeepsButtons (e ∷ es) (run m' es))
        → KeepsButtons (e ∷ es) s
        → KeepsButtons (e ∷ es) (elim s [ looping m' ↦ run m' es | ended m' ↦ ended m' ])
    onward (looping m') next k = next m' k
    onward (ended m') next k = k

-- Through any turns of the mouse forwarding thread and calls of the stop function: while it loops, its
-- record holds exactly the buttons whose last message was a press; once it has ended, by a stop, a target
-- that vanished, a lost hook, a closed channel or a failed send, the hook is taken out, the last message
-- tried for each button, if there was one, was its release, and the running flag is cleared, except
-- perhaps where the hook itself has closed the channel.
pub run-KeepsButtons :
    (before : Mouse) (now : Instant) (seen : ℕ) (es : List Event)
    → KeepsButtons es (run (begin before now seen) es)
unfolding begin contains buttons_of is_down
run-KeepsButtons before now seen es = run_from-KeepsButtons (begin before now seen) es (λ b. refl)

receive-closed : (w : World) (m : Mouse) (r : Received) → r ≡ disconnected → receive w m r ≡ leave m
receive-closed w m disconnected e = refl
receive-closed w m timeout e = cc
receive-closed w m (event ev) e = cc

checked_hook-closed :
    (w : World) (m : Mouse) (h : Health) (c : Checked)
    → c ≡ not_due
    → w.received ≡ disconnected
    → checked_hook w m (h, c) ≡ leave (record m { health = h })
checked_hook-closed w m h not_due e closed = receive-closed w _ w.received closed
checked_hook-closed w m h lost e closed = cc
checked_hook-closed w m h (checked anew warned) e closed = cc

-- Where the hook closes the channel in a turn that makes no health check, and whose target is there, the
-- thread ends with the flag as it was: if it was set, the next start is refused as already running,
-- although no hook is in place.
pub disconnected_leaves_flag :
    (w : World) (m : Mouse)
    → is_stale (watch_target (active_target_present w.target) w.now m.active_absent_since) w.now'
      ≡ false
    → (check_health w.probe m.health).1 ≡ not_due
    → w.received ≡ disconnected
    → (m' : Mouse) × (settle (turn w m) ≡ ended m')
      × (m'.hook ≡ record { running = m.hook.running; installed = false })
unfolding turn finish
disconnected_leaves_flag w m live due closed =
    let absent = watch_target (active_target_present w.target) w.now m.active_absent_since in
    let left : Mouse = record m {
      active_absent_since = absent;
      health = (check_health w.probe m.health).0;
    } in
    (
      finish left,
      rw (live, turn)
          (ap settle (
            checked_hook-closed w (record m { active_absent_since = absent })
              (check_health w.probe m.health).0 (check_health w.probe m.health).1 due closed)),
      refl,
    )
