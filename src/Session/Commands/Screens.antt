-- ===== src/Session/Commands/Screens.antt =====
-- The commands on named screens in any order: `connect_screen`
-- (apps/tailkvm-ui/src-tauri/src/session/mod.rs) and `disconnect_screen`
-- (apps/tailkvm-ui/src-tauri/src/lib.rs).
use Prim.Native.String.{String}
use text.Mathlib.Text.{◌==◌ as str_eq}
use tail_kvm.Base.{
  ℕ, ◌≡◌, sym, ◌∙◌, ap, ◌≢◌, inl, inr, true, false, ◌||◌, Bool-cases, some, Option-cases, List, [],
  ◌∷◌, set,
}
use tail_kvm.Base.Dict
use tail_kvm.Base.Dict.{string_eq}
use tail_kvm.Session.Trim.{trim}
use tail_kvm.Session.Commands.{App, address, replaced, connect_screen, disconnect_screen}
use tail_kvm.Session.Commands.Slots.{runs, halted, runs-set_self, runs-set_ne}
use tail_kvm.Session.Commands.Table.{lookup-erase_ne, lookup-erase-erase, not_same, some-inj}
use tail_kvm.Session.Commands.Named.{IsServed, start_named_session-IsServed}

pub data Command : Type 0 where
  connect : (name host port : String) → Command
  disconnect : (name : String) → Command

unfoldable pub obey : Command → App → App
obey (connect name host port) s = (connect_screen name host port s).0
obey (disconnect name) s = disconnect_screen name s

unfoldable pub obey_all : List Command → App → App
obey_all [] s = s
obey_all (c ∷ cs) s = obey_all cs (obey c s)

module _ (name : String) (i0 : ℕ) (s : App) (v : IsServed s)
    (present : Dict.lookup name s.sessions ≡ some i0) where
  other_slot :
      (other : String) (i : ℕ)
      → str_eq name other ≡ false
      → Dict.lookup other s.sessions ≡ some i
      → i0 ≢ i
  other_slot other i ne found e =
      not_same name other ne (v.single name other i (present ∙ ap some e) found)

  -- A name that is left in the table is another one, and was there.
  left :
      (other : String) (i : ℕ)
      → Dict.lookup other (Dict.erase name s.sessions) ≡ some i
      → (str_eq name other ≡ false) × (Dict.lookup other s.sessions ≡ some i)
  left other i found = elim (Bool-cases (str_eq name other)) [
    | inl same ↦
        let e = (string_eq.beq_iff name other).0 same in
        let gone = v.once other in
        let here = ap (λ n. Dict.lookup other (Dict.erase n s.sessions)) (sym e) in absurd (cc)
    | inr ne ↦ (ne, sym (lookup-erase_ne name other s.sessions ne) ∙ found)
  ]

  replaced-live :
      (other : String) (i : ℕ)
      → Dict.lookup other (Dict.erase name s.sessions) ≡ some i
      → runs (set s.slots i0 halted) i ≡ true
  replaced-live other i found =
      let (ne, before) = left other i found in
      runs-set_ne s.slots i0 i (other_slot other i ne before) ∙ v.live other i before

  replaced-wanted :
      (i : ℕ)
      → runs (set s.slots i0 halted) i ≡ true
      → (other : String) × (Dict.lookup other (Dict.erase name s.sessions) ≡ some i)
  replaced-wanted i on =
      let ne : i0 ≢ i = λ e.
        (let off = runs-set_self s.slots i0 in
          let on' = ap (runs (set s.slots i0 halted)) e in absurd (cc)) in
      let (other, found) = v.wanted i (sym (runs-set_ne s.slots i0 i ne) ∙ on) in
      elim (Bool-cases (str_eq name other)) [
        | inl same ↦
            let e = ap (λ n. Dict.lookup n s.sessions) ((string_eq.beq_iff name other).0 same) in
            absurd (ne (some-inj (sym present ∙ e ∙ found)))
        | inr diff ↦ (other, lookup-erase_ne name other s.sessions diff ∙ found)
      ]

  replaced-IsServed : IsServed (replaced s name (some i0))
  replaced-IsServed = record {
    live = replaced-live;
    single = λ one other i f g. v.single one other i (left one i f).1 (left other i g).1;
    once = λ k. lookup-erase-erase k name s.sessions (v.once k);
    wanted = replaced-wanted;
  }

disconnect_screen-IsServed :
    (name : String) (s : App) → IsServed s → IsServed (disconnect_screen name s)
unfolding disconnect_screen trim
disconnect_screen-IsServed name s v = elim (Option-cases (Dict.lookup (trim name) s.sessions)) [
  | inl absent ↦
      rw (absent) record { live = v.live; single = v.single; once = v.once; wanted = v.wanted }
  | inr (i0, present) ↦
      let r = replaced-IsServed (trim name) i0 s v present in
      rw (present) record { live = r.live; single = r.single; once = r.once; wanted = r.wanted }
]

connect_screen-IsServed :
    (name host port : String) (s : App) → IsServed s → IsServed (connect_screen name host port s).0
unfolding connect_screen
connect_screen-IsServed name host port s v =
    elim (Bool-cases (str_eq (trim name) "" || str_eq (trim host) "")) [
      | inl blank ↦ rw (blank) v
      | inr given ↦
          let r = start_named_session-IsServed (trim name) (address (trim host) port) s v in
          rw (given) record { live = r.live; single = r.single; once = r.once; wanted = r.wanted }
    ]

obey-IsServed : (c : Command) (s : App) → IsServed s → IsServed (obey c s)
unfolding obey
obey-IsServed (connect name host port) s v = connect_screen-IsServed name host port s v
obey-IsServed (disconnect name) s v = disconnect_screen-IsServed name s v

pub no_sessions-IsServed : (s : App) → s.sessions ≡ [] → s.slots ≡ [] → IsServed s
unfolding runs Dict.lookup Dict.erase
no_sessions-IsServed s no_names no_slots = record {
  live = λ name i found. (let e = ap (Dict.lookup name) no_names in absurd (cc));
  single = λ one other i f g. (let e = ap (Dict.lookup one) no_names in absurd (cc));
  once = λ k. ap (λ m. Dict.lookup k (Dict.erase k m)) no_names;
  wanted = λ i on. (let e = ap (λ xs. runs xs i) no_slots in absurd (cc));
}

-- If each name in the table has a slot of its own whose supervisor is to go on, no name stands twice, and
-- a supervisor that is to go on belongs to a name, then the same holds after any sequence of connect and disconnect commands, those
-- with a blank name or host among them: none goes on without a name, and no two names
-- share one.
pub obey_all-IsServed : (cs : List Command) (s : App) → IsServed s → IsServed (obey_all cs s)
unfolding obey_all
obey_all-IsServed [] s v = v
obey_all-IsServed (c ∷ cs) s v = obey_all-IsServed cs (obey c s) (obey-IsServed c s v)
