-- ===== src/Session/Lines.antt =====
-- `read_capped_line` of apps/tailkvm-ui/src-tauri/src/session/wire.rs, over the bytes that the stream
-- delivers. `String::from_utf8` and `fill_buf` are what Rust and tokio document.
pub mod Reads
pub mod Resume
use tail_kvm.Base.{
  ℕ, zero, suc, ◌+◌, Bool, true, false, ◌&&◌, Option, none, some, List, [], ◌∷◌, ◌++◌, length, take,
  drop, ltb, leb, ◌==◌, if◌then◌else◌,
}

-- What the stream still delivers: chunks, each of at least one byte, as `fill_buf` hands them over,
-- and then a clean end, an error, or nothing yet. The last is where `select!` can drop the read.
pub data Source : Type 0 where
  eof failed pending : Source
  chunk : ℕ → List ℕ → Source → Source

-- The outcome: `Ok(Some(line))`, `Ok(None)`, the three errors, or a read that was dropped.
pub data Outcome : Type 0 where
  line : List ℕ → Outcome
  closed line_too_long invalid_data io_error cancelled : Outcome

abbrev pub newline : ℕ
newline = 10

-- What a UTF-8 decoder expects: a first byte, or `k` more bytes of a sequence, the next in a range.
pub data Utf8 : Type 0 where
  first : Utf8
  more : ℕ → ℕ → ℕ → Utf8

abbrev pub within : ℕ → ℕ → ℕ → Bool
within lo hi b = leb lo b && leb b hi

pub utf8_step : Utf8 → ℕ → Option Utf8
utf8_step first b =
    if within 0 0x7F b
    then some first
    else if within 0xC2 0xDF b
    then some (more 0 0x80 0xBF)
    else if b == 0xE0
    then some (more 1 0xA0 0xBF)
    else if b == 0xED
    then some (more 1 0x80 0x9F)
    else if within 0xE1 0xEF b
    then some (more 1 0x80 0xBF)
    else if b == 0xF0
    then some (more 2 0x90 0xBF)
    else if within 0xF1 0xF3 b
    then some (more 2 0x80 0xBF)
    else if b == 0xF4
    then some (more 2 0x80 0x8F)
    else none
utf8_step (more zero lo hi) b = if within lo hi b then some first else none
utf8_step (more (suc k) lo hi) b = if within lo hi b then some (more k 0x80 0xBF) else none

pub utf8_from : Option Utf8 → List ℕ → Bool
unfolding utf8_step
utf8_from none bs = false
utf8_from (some first) [] = true
utf8_from (some (more k lo hi)) [] = false
utf8_from (some s) (b ∷ bs) = utf8_from (utf8_step s b) bs

-- Whether `String::from_utf8` accepts the bytes.
unfoldable pub is_utf8 : List ℕ → Bool
unfolding utf8_from
is_utf8 bs = utf8_from (some first) bs

-- `if line.last() == Some(&b'\r') { line.pop(); }`
unfoldable pub strip_cr : List ℕ → List ℕ
strip_cr [] = []
strip_cr (b ∷ []) = if b == 13 then [] else b ∷ []
strip_cr (b ∷ c ∷ bs) = b ∷ strip_cr (c ∷ bs)

-- The end of the function, on the whole line.
unfoldable pub finish : List ℕ → Outcome
unfolding is_utf8 strip_cr
finish buf = if is_utf8 (strip_cr buf) then line (strip_cr buf) else invalid_data

abbrev pub shift : Option ℕ → Option ℕ
shift none = none
shift (some i) = some (suc i)

-- `chunk.iter().position(|&b| b == b'\n')`
unfoldable pub position_newline : List ℕ → Option ℕ
position_newline [] = none
position_newline (b ∷ bs) = if b == newline then some 0 else shift (position_newline bs)

-- What is left of a chunk after `consume`.
unfoldable pub unread : List ℕ → Source → Source
unread [] s = s
unread (b ∷ bs) s = chunk b bs s

-- One call of `read_capped_line`, with the accumulator `buf` that the caller keeps: the outcome, the
-- accumulator afterwards, and what the stream still delivers.
unfoldable pub read_capped_line : ℕ → Source → List ℕ → Outcome × List ℕ × Source
unfolding finish position_newline unread
read_capped_line max eof [] = (closed, [], eof)
read_capped_line max eof (b ∷ bs) = (finish (b ∷ bs), [], eof)
read_capped_line max failed buf = (io_error, buf, failed)
read_capped_line max pending buf = (cancelled, buf, pending)
read_capped_line max (chunk b bs s) buf =
    let bytes = b ∷ bs in
    let rest = read_capped_line max s (buf ++ bytes) in
    elim (position_newline bytes) [
      | some pos ↦
          let left = unread (drop (suc pos) bytes) s in
          if ltb max (length buf + pos)
          then (line_too_long, [], left)
          else (finish (buf ++ take pos bytes), [], left)
      | none ↦ if ltb max (length buf + length bytes) then (line_too_long, [], s) else rest
    ]
