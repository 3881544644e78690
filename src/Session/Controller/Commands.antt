-- ===== src/Session/Controller/Commands.antt =====
-- The order in which a controller session writes the queued commands.
use tail_kvm.Base.{
  ◌≡◌, refl, sym, ap, ◌∙◌, true, Bool-cases, inl, inr, Option, none, some, List, [], ◌∷◌, ◌++◌,
  append-nil, push-append,
}
use tail_kvm.Net.Protocol.{WireMessage}
use tail_kvm.Session.Coalesce.{push_all, last_of_runs, push_all_after}
use tail_kvm.Session.Controller.{Effect, command, Session, World, commands, emit}
use tail_kvm.Session.Controller.Turn.{write_batch, report_batch, send_commands, turn}

-- The commands that were written, in order.
pub commands_of : List Effect → List WireMessage
commands_of [] = []
commands_of (command m ∷ es) = m ∷ commands_of es
commands_of (_ ∷ es) = commands_of es

commands_of-append :
    (es fs : List Effect) → commands_of (es ++ fs) ≡ commands_of es ++ commands_of fs
unfolding commands_of
commands_of-append [] fs = refl
commands_of-append (command m ∷ es) fs = ap (λ r. m ∷ r) (commands_of-append es fs)
commands_of-append (_ ∷ es) fs = commands_of-append es fs

batch_written :
    (w : World) (s : Session) (ms : List WireMessage)
    → (write_batch w s ms).1 ≡ true
    → commands_of (write_batch w s ms).0.effects ≡ commands_of s.effects ++ ms
unfolding write_batch
batch_written w s [] ok = sym (append-nil (commands_of s.effects))
batch_written w s (m ∷ ms) ok = elim (Bool-cases (w.write_ok m)) [
  | inl sent ↦
      rw (sent, write_batch)
        (batch_written w (emit (command m) s) ms (rw (sent, write_batch) at ok)
          ∙ ap (λ r. r ++ ms) (commands_of-append s.effects (command m ∷ []))
          ∙ one_more (commands_of s.effects) m ms)
  | inr unsent ↦ absurd (cc (rw (unsent, write_batch) at ok))
]
  where
    one_more :
        (cs : List WireMessage) (m : WireMessage) (ms : List WireMessage)
        → (cs ++ commands_of (command m ∷ [])) ++ ms ≡ cs ++ (m ∷ ms)
    one_more cs m ms = unfold commands_of in push-append cs m ms

-- A turn on the queue after which the session goes on has written, in order and once each, the queued
-- messages without the absolute positions that another one directly follows.
pub turn_commands :
    (w : World) (s : Session) (first : WireMessage) (queued : List WireMessage)
    → (turn w s (commands first queued)).1 ≡ true
    → commands_of (turn w s (commands first queued)).0.effects
      ≡ commands_of s.effects ++ last_of_runs (first ∷ queued)
unfolding turn send_commands
turn_commands w s first queued on =
    elim (Bool-cases (write_batch w s (push_all (first ∷ []) queued)).1) [
      | inl ok ↦
          rw (ok, send_commands)
            (same_commands (write_batch w s (push_all (first ∷ []) queued)).0 _
              ∙ batch_written w s (push_all (first ∷ []) queued) ok
              ∙ ap (λ ms. commands_of s.effects ++ ms) (push_all_after [] first queued))
      | inr bad ↦ absurd (cc (rw (bad, send_commands) at on))
    ]
  where
    same_commands :
        (t : Session) (m : Option WireMessage)
        → commands_of (report_batch t m).effects ≡ commands_of t.effects
    same_commands t none = refl
    same_commands t (some m) = refl
