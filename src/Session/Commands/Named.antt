-- ===== src/Session/Commands/Named.antt =====
-- The start of a named session, `start_named_session`, keeps the table and the slots in step
-- (apps/tailkvm-ui/src-tauri/src/session/mod.rs).
use Prim.Native.String.{String}
use text.Mathlib.Text.{◌==◌ as str_eq}
use tail_kvm.Base.{
  ℕ, ◌<◌, ◌≡◌, sym, ◌∙◌, ap, ◌≢◌, inl, inr, true, false, Bool-cases, none, some, Option-cases,
  length, length-set, set, ◌==◌, ==_iff, arith,
}
use tail_kvm.Base.Dict
use tail_kvm.Base.Dict.{string_eq}
use tail_kvm.Session.Commands.{App, start_named_session}
use tail_kvm.Session.Commands.Slots.{
  runs, halted, runs-lt, runs-set_self, runs-set_ne, runs-append_last, runs-append_ne,
  runs-turned_ne, runs-turned_last,
}
use tail_kvm.Session.Commands.Table.{
  IsOnce, lookup-erase_ne, lookup-erase-insert, lookup-erase-erase, lookup-started_ne, not_same,
  some-inj,
}

-- Every name has a running session of its own, and no other session runs.
pub record IsServed (s : App) : Type 0 where
  pub live : (name : String) (i : ℕ) → Dict.lookup name s.sessions ≡ some i → runs s.slots i ≡ true
  pub single :
      (name other : String) (i : ℕ)
      → Dict.lookup name s.sessions ≡ some i
      → Dict.lookup other s.sessions ≡ some i
      → name ≡ other
  pub once : IsOnce s.sessions
  pub wanted :
      (i : ℕ) → runs s.slots i ≡ true → (name : String) × (Dict.lookup name s.sessions ≡ some i)

-- What the start of a named session does to the table and to the slots, whether the name was there or not.
record Does (name : String) (s s' : App) : Type 0 where
  here : Dict.lookup name s'.sessions ≡ some (length s.slots)
  there :
      (other : String)
      → str_eq name other ≡ false
      → Dict.lookup other s'.sessions ≡ Dict.lookup other s.sessions
  unique : IsOnce s.sessions → IsOnce s'.sessions
  new : runs s'.slots (length s.slots) ≡ true
  old :
      (i : ℕ)
      → i ≢ length s.slots
      → Dict.lookup name s.sessions ≢ some i
      → runs s'.slots i ≡ runs s.slots i
  gone :
      (i : ℕ) → i ≢ length s.slots → Dict.lookup name s.sessions ≡ some i → runs s'.slots i ≡ false

absent-Does :
    (name addr : String) (s : App)
    → Dict.lookup name s.sessions ≡ none
    → Does name s (start_named_session name addr s)
unfolding start_named_session
absent-Does name addr s absent = rw (absent) record {
  here = Dict.lookup-insert_self name (length s.slots) s.sessions;
  there = λ other ne. lookup-started_ne name other (length s.slots) s.sessions ne;
  unique = λ o k. lookup-erase-insert k name (length s.slots) s.sessions ∙ o k;
  new = runs-append_last s.slots;
  old = λ i ne other. runs-append_ne s.slots i ne;
  gone = λ i ne h. absurd (cc);
}

present-Does :
    (name addr : String) (s : App) (i0 : ℕ)
    → Dict.lookup name s.sessions ≡ some i0
    → Does name s (start_named_session name addr s)
unfolding start_named_session
present-Does name addr s i0 present =
    rw (present, length-set s.slots i0 halted)
      record {
        here = Dict.lookup-insert_self name (length s.slots) (Dict.erase name s.sessions);
        there = λ other ne.
            lookup-started_ne name other (length s.slots) (Dict.erase name s.sessions) ne
            ∙ lookup-erase_ne name other s.sessions ne;
        unique = λ o k.
            lookup-erase-insert k name (length s.slots) (Dict.erase name s.sessions)
            ∙ lookup-erase-erase k name s.sessions (o k);
        new = runs-turned_last s.slots i0;
        old = λ i ne other.
            runs-turned_ne s.slots i0 i ne
            ∙ runs-set_ne s.slots i0 i (λ e. other (present ∙ ap some e));
        gone = λ i ne h.
            runs-turned_ne s.slots i0 i ne
            ∙ ap (runs (set s.slots i0 halted)) (some-inj (sym h ∙ present))
            ∙ runs-set_self s.slots i0;
      }

started-Does : (name addr : String) (s : App) → Does name s (start_named_session name addr s)
started-Does name addr s = elim (Option-cases (Dict.lookup name s.sessions)) [
  | inl absent ↦ absent-Does name addr s absent
  | inr (i0, present) ↦ present-Does name addr s i0 present
]

module _ (name : String) (s s' : App) (d : Does name s s') (v : IsServed s) where
  earlier-lt : (other : String) (i : ℕ) → Dict.lookup other s.sessions ≡ some i → i < length s.slots
  earlier-lt other i found = runs-lt s.slots i (v.live other i found)

  found-new :
      (other : String) (i : ℕ)
      → str_eq name other ≡ true
      → Dict.lookup other s'.sessions ≡ some i
      → (name ≡ other) × (i ≡ length s.slots)
  found-new other i same found =
      let e = (string_eq.beq_iff name other).0 same in
      (e, some-inj (sym found ∙ ap (λ n. Dict.lookup n s'.sessions) (sym e) ∙ d.here))

  live-new :
      (other : String) (i : ℕ) → Dict.lookup other s'.sessions ≡ some i → runs s'.slots i ≡ true
  live-new other i found = elim (Bool-cases (str_eq name other)) [
    | inl same ↦ ap (runs s'.slots) (found-new other i same found).1 ∙ d.new
    | inr ne ↦
        let before = sym (d.there other ne) ∙ found in
        d.old i (λ e. absurd (omega (arith, earlier-lt other i before, e)))
          (λ h. not_same name other ne (v.single name other i h before))
        ∙ v.live other i before
  ]

  -- A name other than the new one has an older slot than the new one.
  apart :
      (one other : String) (i : ℕ)
      → str_eq name one ≡ true
      → Dict.lookup one s'.sessions ≡ some i
      → str_eq name other ≡ false
      → Dict.lookup other s'.sessions ≢ some i
  apart one other i same f ne g =
      absurd
        (omega (arith, (found-new one i same f).1, earlier-lt other i (sym (d.there other ne) ∙ g)))

  single-new :
      (one other : String) (i : ℕ)
      → Dict.lookup one s'.sessions ≡ some i
      → Dict.lookup other s'.sessions ≡ some i
      → one ≡ other
  single-new one other i f g = elim (Bool-cases (str_eq name one)) [
    | inl a ↦ elim (Bool-cases (str_eq name other)) [
      | inl b ↦ sym (found-new one i a f).0 ∙ (found-new other i b g).0
      | inr b ↦ absurd (apart one other i a f b g)
    ]
    | inr a ↦ elim (Bool-cases (str_eq name other)) [
      | inl b ↦ absurd (apart other one i b g a f)
      | inr b ↦ v.single one other i (sym (d.there one a) ∙ f) (sym (d.there other b) ∙ g)
    ]
  ]

  kept :
      (i : ℕ)
      → i ≢ length s.slots
      → Dict.lookup name s.sessions ≢ some i
      → runs s'.slots i ≡ true
      → (other : String) × (Dict.lookup other s'.sessions ≡ some i)
  kept i ne nn on =
      let (other, found) = v.wanted i (sym (d.old i ne nn) ∙ on) in
      elim (Bool-cases (str_eq name other)) [
        | inl same ↦ absurd (
            nn (ap (λ n. Dict.lookup n s.sessions) ((string_eq.beq_iff name other).0 same) ∙ found))
        | inr diff ↦ (other, d.there other diff ∙ found)
      ]

  wanted-new :
      (i : ℕ) → runs s'.slots i ≡ true → (other : String) × (Dict.lookup other s'.sessions ≡ some i)
  wanted-new i on = elim (Bool-cases (i == length s.slots)) [
    | inl same ↦ (name, d.here ∙ ap some (sym ((==_iff i (length s.slots)).0 same)))
    | inr diff ↦
        let ne : i ≢ length s.slots =
          λ e. (let same = (==_iff i (length s.slots)).1 e in absurd (cc)) in
        kept i ne (λ h. (let off = d.gone i ne h in absurd (cc))) on
  ]

-- Starting a named session, whether or not one of that name was there, keeps the table served: every name has a slot of its own whose supervisor is to go on, and no other supervisor is to go on.
pub start_named_session-IsServed :
    (name addr : String) (s : App) → IsServed s → IsServed (start_named_session name addr s)
start_named_session-IsServed name addr s v =
    let s' = start_named_session name addr s in
    let d = started-Does name addr s in
    record {
      live = live-new name s s' d v;
      single = single-new name s s' d v;
      once = d.unique v.once;
      wanted = wanted-new name s s' d v;
    }
