-- ===== src/Session/Lines/Resume.antt =====
-- A dropped read loses nothing: the next call goes on where the dropped one stopped. And the
-- accumulator never holds more than the cap.
use tail_kvm.Base.{
  ℕ, suc, ◌+◌, ◌≤◌, ◌≡◌, inl, inr, true, false, Bool-cases, none, some, Option-cases, List, [], ◌∷◌,
  ◌++◌, arith, length, length-append, take, drop, ltb, length-take,
}
use tail_kvm.Session.Lines.{
  Source, eof, failed, pending, chunk, Outcome, line, line_too_long, cancelled, is_utf8, strip_cr,
  finish, position_newline, unread, read_capped_line,
}

-- What the stream delivers once `t` follows on everything that is there.
unfoldable pub then_more : Source → Source → Source
then_more eof t = eof
then_more failed t = failed
then_more pending t = t
then_more (chunk b bs s) t = chunk b bs (then_more s t)

finish_done : (buf : List ℕ) → finish buf ≡ cancelled → ⊥
unfolding finish
finish_done buf h = ground arith

-- The steps of a call on a chunk.
module _ (max b : ℕ) (bs : List ℕ) (s : Source) (buf : List ℕ) where
  pub read_line :
      (pos : ℕ)
      → position_newline (b ∷ bs) ≡ some pos
      → ltb max (length buf + pos) ≡ false
      → read_capped_line max (chunk b bs s) buf
        ≡ (finish (buf ++ take pos (b ∷ bs)), [], unread (drop (suc pos) (b ∷ bs)) s)
  unfolding read_capped_line
  read_line pos found fits = rw (found, fits, read_capped_line)

  pub read_line_over :
      (pos : ℕ)
      → position_newline (b ∷ bs) ≡ some pos
      → ltb max (length buf + pos) ≡ true
      → read_capped_line max (chunk b bs s) buf
        ≡ (line_too_long, [], unread (drop (suc pos) (b ∷ bs)) s)
  unfolding read_capped_line
  read_line_over pos found over = rw (found, over, read_capped_line)

  pub read_whole :
      position_newline (b ∷ bs) ≡ none
      → ltb max (length buf + length (b ∷ bs)) ≡ false
      → read_capped_line max (chunk b bs s) buf ≡ read_capped_line max s (buf ++ (b ∷ bs))
  unfolding read_capped_line
  read_whole none_found fits = rw (none_found, fits, read_capped_line)

  pub read_whole_over :
      position_newline (b ∷ bs) ≡ none
      → ltb max (length buf + length (b ∷ bs)) ≡ true
      → read_capped_line max (chunk b bs s) buf ≡ (line_too_long, [], s)
  unfolding read_capped_line
  read_whole_over none_found over = rw (none_found, over, read_capped_line)

-- A read that was dropped had taken every chunk that was there into the accumulator: with more of the
-- stream delivered, the next call on that accumulator answers as one call on the whole would have.
pub read_capped_line_resume :
    (max : ℕ) (s t : Source) (buf buf' : List ℕ) (left : Source)
    → read_capped_line max s buf ≡ (cancelled, buf', left)
    → read_capped_line max (then_more s t) buf ≡ read_capped_line max t buf'
unfolding then_more
read_capped_line_resume max eof t [] buf' left h = unfold read_capped_line in cc
read_capped_line_resume max eof t (b ∷ bs) buf' left h =
    absurd (finish_done (b ∷ bs) (unfold read_capped_line in cc))
read_capped_line_resume max failed t buf buf' left h = unfold read_capped_line in cc
read_capped_line_resume max pending t buf buf' left h = unfold read_capped_line in cc
read_capped_line_resume max (chunk b bs s) t buf buf' left h =
    elim (Option-cases (position_newline (b ∷ bs))) [
      | inr (pos, found) ↦ elim (Bool-cases (ltb max (length buf + pos))) [
        | inl over ↦ cc (h, read_line_over max b bs s buf pos found over)
        | inr fits ↦ absurd (
            finish_done (buf ++ take pos (b ∷ bs))
              (cc (h, read_line max b bs s buf pos found fits)))
      ]
      | inl none_found ↦ elim (Bool-cases (ltb max (length buf + length (b ∷ bs)))) [
        | inl over ↦ cc (h, read_whole_over max b bs s buf none_found over)
        | inr fits ↦ rw (read_whole max b bs (then_more s t) buf none_found fits) (
            read_capped_line_resume max s t (buf ++ (b ∷ bs)) buf' left
              (rw (← read_whole max b bs s buf none_found fits) h))
      ]
    ]

length-strip_cr : (bs : List ℕ) → length (strip_cr bs) ≤ length bs
unfolding strip_cr
length-strip_cr [] = omega arith
length-strip_cr (b ∷ []) = ground arith
length-strip_cr (b ∷ c ∷ bs) = omega (arith, length-strip_cr (c ∷ bs))

-- How many bytes a call keeps or hands out.
abbrev pub kept : Outcome × List ℕ × Source → ℕ
kept (line l, buf, left) = length l + length buf
kept (_, buf, left) = length buf

kept-finish :
    (max : ℕ) (buf : List ℕ) (left : Source) → length buf ≤ max → kept (finish buf, [], left) ≤ max
unfolding finish
kept-finish max buf left h = elim (Bool-cases (is_utf8 (strip_cr buf))) [
  | inl ok ↦ rw ok (omega (arith, length-strip_cr buf))
  | inr bad ↦ rw bad (omega arith)
]

-- From an accumulator of at most max bytes, the line that a call hands out and the accumulator that
-- it leaves have together at most max bytes, whatever the peer sends.
pub read_capped_line_bounds :
    (max : ℕ) (s : Source) (buf : List ℕ)
    → length buf ≤ max
    → kept (read_capped_line max s buf) ≤ max
read_capped_line_bounds max eof [] h = unfold read_capped_line in omega arith
read_capped_line_bounds max eof (b ∷ bs) h =
    unfold read_capped_line in kept-finish max (b ∷ bs) eof h
read_capped_line_bounds max failed buf h = unfold read_capped_line in h
read_capped_line_bounds max pending buf h = unfold read_capped_line in h
read_capped_line_bounds max (chunk b bs s) buf h = elim (Option-cases (position_newline (b ∷ bs))) [
  | inr (pos, found) ↦ elim (Bool-cases (ltb max (length buf + pos))) [
    | inl over ↦ rw (read_line_over max b bs s buf pos found over) (omega arith)
    | inr fits ↦ rw (read_line max b bs s buf pos found fits) (
        kept-finish max (buf ++ take pos (b ∷ bs)) (unread (drop (suc pos) (b ∷ bs)) s)
          (ground (arith, length-append buf (take pos (b ∷ bs)), length-take pos (b ∷ bs))))
  ]
  | inl none_found ↦ elim (Bool-cases (ltb max (length buf + length (b ∷ bs)))) [
    | inl over ↦ rw (read_whole_over max b bs s buf none_found over) (omega arith)
    | inr fits ↦ rw (read_whole max b bs s buf none_found fits) (
        read_capped_line_bounds max s (buf ++ (b ∷ bs))
          (ground (arith, length-append buf (b ∷ bs))))
  ]
]
