-- ===== src/Session/Lines/Reads.antt =====
-- How the stream is cut into chunks does not matter: a call answers as reading byte by byte would.
use tail_kvm.Base.{
  ℕ, zero, suc, ◌+◌, ◌≤◌, ◌<◌, ◌≡◌, ◌⊎◌, refl, sym, inl, inr, false, Bool-cases, Option, none, some,
  Option-cases, List, [], ◌∷◌, ◌++◌, arith, length, length-append, push-append, append-nil, take,
  drop, ltb, ◌==◌, if◌then◌else◌,
}
use tail_kvm.Session.Lines.{
  Source, eof, failed, pending, chunk, Outcome, line_too_long, newline, finish, position_newline,
  shift, unread, read_capped_line,
}
use tail_kvm.Session.Lines.Resume.{read_line, read_line_over, read_whole, read_whole_over}

-- The bytes of a source, and how it ends.
pub bytes_of : Source → List ℕ
bytes_of eof = []
bytes_of failed = []
bytes_of pending = []
bytes_of (chunk b bs s) = (b ∷ bs) ++ bytes_of s

pub ending : Source → Source
ending (chunk b bs s) = ending s
ending s = s

-- The specification: one byte at a time, up to a newline or to the byte that goes over the cap.
unfoldable pub read_bytes : ℕ → List ℕ → Source → List ℕ → Outcome × List ℕ × List ℕ
read_bytes max [] end buf = let (o, left, _) = read_capped_line max end buf in (o, left, [])
read_bytes max (b ∷ bs) end buf =
    let rest = read_bytes max bs end (buf ++ (b ∷ [])) in
    if b == newline
    then (finish buf, [], bs)
    else if ltb max (suc (length buf))
    then (line_too_long, [], bs)
    else rest

-- The two agree on outcome and accumulator and, unless the line was too long, on what is left.
pub record Agree (r : Outcome × List ℕ × Source) (q : Outcome × List ℕ × List ℕ) : Type 0 where
  pub outcome : r.0 ≡ q.0
  pub accumulator : r.1 ≡ q.1
  pub remainder : (r.0 ≡ line_too_long) ⊎ (bytes_of r.2 ≡ q.2)

-- Reading byte by byte over a chunk with a newline at `pos`.
bytes_line :
    (max : ℕ) (c rest : List ℕ) (end : Source) (buf : List ℕ) (pos : ℕ)
    → position_newline c ≡ some pos
    → length buf + pos ≤ max
    → read_bytes max (c ++ rest) end buf
      ≡ (finish (buf ++ take pos c), [], drop (suc pos) c ++ rest)
unfolding position_newline read_bytes
bytes_line max [] rest end buf pos found fits = cc
bytes_line max (b ∷ bs) rest end buf zero found fits = elim (Bool-cases (b == newline)) [
  | inl nl ↦ rw (nl, append-nil buf)
  | inr other ↦ elim (Option-cases (position_newline bs)) [
    | inl none_found ↦ ground (arith, other, none_found, found)
    | inr (i, there) ↦ ground (arith, other, there, found)
  ]
]
bytes_line max (b ∷ bs) rest end buf (suc pos) found fits = elim (Bool-cases (b == newline)) [
  | inl nl ↦ ground (arith, nl, found)
  | inr other ↦
      let there : position_newline bs ≡ some pos =
        later (position_newline bs) (rw other at found) in
      let room : ltb max (suc (length buf)) ≡ false = ground arith in
      rw (
        other,
        room,
        bytes_line max bs rest end (buf ++ (b ∷ [])) pos there
            (ground (arith, length-append buf (b ∷ []))),
        push-append buf b (take pos bs),
      )
]
  where
    later : (o : Option ℕ) → shift o ≡ some (suc pos) → o ≡ some pos
    later none h = cc
    later (some i) h = cc

-- Over a chunk without a newline that fits.
bytes_whole :
    (max : ℕ) (c rest : List ℕ) (end : Source) (buf : List ℕ)
    → position_newline c ≡ none
    → length buf + length c ≤ max
    → read_bytes max (c ++ rest) end buf ≡ read_bytes max rest end (buf ++ c)
unfolding position_newline read_bytes
bytes_whole max [] rest end buf none_found fits = rw (append-nil buf)
bytes_whole max (b ∷ bs) rest end buf none_found fits = elim (Bool-cases (b == newline)) [
  | inl nl ↦ ground (arith, nl, none_found)
  | inr other ↦
      let there : position_newline bs ≡ none =
        nowhere (position_newline bs) (rw other at none_found) in
      let room : ltb max (suc (length buf)) ≡ false = ground arith in
      rw (
        other,
        room,
        bytes_whole max bs rest end (buf ++ (b ∷ [])) there
            (ground (arith, length-append buf (b ∷ []))),
        push-append buf b bs,
      )
]
  where
    nowhere : (o : Option ℕ) → shift o ≡ none → o ≡ none
    nowhere none h = refl
    nowhere (some i) h = cc

-- How many bytes of a chunk belong to the line.
abbrev run_of : Option ℕ → ℕ → ℕ
run_of none n = n
run_of (some pos) n = pos

run : List ℕ → ℕ
run c = run_of (position_newline c) (length c)

run_found : (c : List ℕ) (pos : ℕ) → position_newline c ≡ some pos → run c ≡ pos
unfolding run
run_found c pos h = rw h

run-none : (c : List ℕ) → position_newline c ≡ none → run c ≡ length c
unfolding run
run-none c h = rw h

bytes_over :
    (max : ℕ) (c rest : List ℕ) (end : Source) (buf : List ℕ)
    → length buf ≤ max
    → max < length buf + run c
    → ((read_bytes max (c ++ rest) end buf).0 ≡ line_too_long)
      × ((read_bytes max (c ++ rest) end buf).1 ≡ [])
unfolding read_bytes run position_newline
bytes_over max [] rest end buf h over = absurd (omega arith)
bytes_over max (b ∷ bs) rest end buf h over = elim (Bool-cases (b == newline)) [
  | inl nl ↦ ground (arith, nl, over)
  | inr other ↦ elim (Bool-cases (ltb max (suc (length buf)))) [
    | inl full ↦ rw (other, full) (refl, refl)
    | inr room ↦
        rw (other, room)
          (bytes_over max bs rest end (buf ++ (b ∷ [])) (ground (arith, length-append buf (b ∷ [])))
            (omega
              (arith, length-append buf (b ∷ []), more (position_newline bs) (rw other at over))))
  ]
]
  where
    more :
        (o : Option ℕ)
        → max < length buf + run_of (shift o) (suc (length bs))
        → max < suc (length buf) + run_of o (length bs)
    more none k = omega arith
    more (some i) k = omega arith

bytes_of-unread : (bs : List ℕ) (s : Source) → bytes_of (unread bs s) ≡ bs ++ bytes_of s
unfolding bytes_of unread
bytes_of-unread [] s = refl
bytes_of-unread (b ∷ bs) s = refl

-- From an accumulator within the cap, a call of read_capped_line has the outcome and the
-- accumulator that reading its bytes one by one gives, which takes the line up to the first
-- newline, gives it up when it goes over the cap, or stops where the stream does, however the
-- stream is cut into chunks. Unless the line was too long, what follows it is still there for the
-- next call.
pub read_capped_line-read_bytes :
    (max : ℕ) (s : Source) (buf : List ℕ)
    → length buf ≤ max
    → Agree (read_capped_line max s buf) (read_bytes max (bytes_of s) (ending s) buf)
unfolding bytes_of ending
read_capped_line-read_bytes max eof [] h =
    unfold read_bytes in
    unfold read_capped_line in record { outcome = refl; accumulator = refl; remainder = inr refl }
read_capped_line-read_bytes max eof (b ∷ bs) h =
    unfold read_bytes in
    unfold read_capped_line in record { outcome = refl; accumulator = refl; remainder = inr refl }
read_capped_line-read_bytes max failed buf h =
    unfold read_bytes in
    unfold read_capped_line in record { outcome = refl; accumulator = refl; remainder = inr refl }
read_capped_line-read_bytes max pending buf h =
    unfold read_bytes in
    unfold read_capped_line in record { outcome = refl; accumulator = refl; remainder = inr refl }
read_capped_line-read_bytes max (chunk b bs s) buf h =
    elim (Option-cases (position_newline (b ∷ bs))) [
      | inr (pos, found) ↦ elim (Bool-cases (ltb max (length buf + pos))) [
        | inl over ↦
            let slow =
              bytes_over max (b ∷ bs) (bytes_of s) (ending s) buf h
                (ground (arith, run_found (b ∷ bs) pos found)) in
            rw (read_line_over max b bs s buf pos found over)
              (record { outcome = sym slow.0; accumulator = sym slow.1; remainder = inl refl })
        | inr fits ↦
            rw
              (
                read_line max b bs s buf pos found fits,
                bytes_line max (b ∷ bs) (bytes_of s) (ending s) buf pos found (ground arith),
              )
              (record {
                outcome = refl;
                accumulator = refl;
                remainder = inr (bytes_of-unread (drop (suc pos) (b ∷ bs)) s);
              })
      ]
      | inl none_found ↦ elim (Bool-cases (ltb max (length buf + length (b ∷ bs)))) [
        | inl over ↦
            let slow =
              bytes_over max (b ∷ bs) (bytes_of s) (ending s) buf h
                (ground (arith, run-none (b ∷ bs) none_found)) in
            rw (read_whole_over max b bs s buf none_found over)
              (record { outcome = sym slow.0; accumulator = sym slow.1; remainder = inl refl })
        | inr fits ↦
            rw
              (
                read_whole max b bs s buf none_found fits,
                bytes_whole max (b ∷ bs) (bytes_of s) (ending s) buf none_found (ground arith),
              )
              (read_capped_line-read_bytes max s (buf ++ (b ∷ bs))
                (ground (arith, length-append buf (b ∷ bs))))
      ]
    ]
