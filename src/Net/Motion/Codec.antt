-- ===== src/Net/Motion/Codec.antt =====
-- The motion frame is a bijection between valid datagrams and the frames that `decode` accepts.
use tail_kvm.Base.{
  ℕ, ◌^◌, ◌<◌, ◌≡◌, refl, inl, inr, none, some, List, ◌∷◌, ◌++◌, arith, length, take, drop,
  length-take, length-drop, take-append-drop, sym, get_or, ◌==◌, ==_iff, Bool-cases, ◌∙◌,
}
use tail_kvm.Base.Int.{ℤ, pos, negsuc}
use tail_kvm.Base.I32.{IsI32, pattern32, signed32}
use tail_kvm.Net.Bytes.{
  le_bytes, from_le_bytes, AllBytes, from_le_bytes-le_bytes, le_bytes_chunk, drop-drop, drop_cons,
  take_all, take-AllBytes, drop-AllBytes,
}
use tail_kvm.Net.Motion.{
  Motion, set_position, move, MotionDatagram, fields, motion_of, with_seq, encode, decode,
  motion_datagram_len,
}

-- A datagram whose numbers fit the frame.
pub record IsDatagram (d : MotionDatagram) : Type 0 where
  pub seq_fits : d.seq < 2 ^ 64
  pub first_fits : IsI32 (fields d.motion).1
  pub second_fits : IsI32 (fields d.motion).2

signed32-pattern32 : (a : ℤ) → IsI32 a → signed32 (pattern32 a) ≡ a
signed32-pattern32 (pos n) h = ground arith
signed32-pattern32 (negsuc n) h = ground arith

pattern32-signed32 : (w : ℕ) → w < 2 ^ 32 → pattern32 (signed32 w) ≡ w
pattern32-signed32 w h = ground arith

signed32-IsI32 : (w : ℕ) → w < 2 ^ 32 → IsI32 (signed32 w)
signed32-IsI32 w h = ground arith

pattern32-lt : (a : ℤ) → pattern32 a < 2 ^ 32
pattern32-lt (pos n) = omega arith
pattern32-lt (negsuc n) = omega arith

read_i32 : (a : ℤ) → IsI32 a → signed32 (from_le_bytes (le_bytes 4 (pattern32 a))) ≡ a
read_i32 a h = rw (from_le_bytes-le_bytes 4 (pattern32 a) (pattern32-lt a)) (signed32-pattern32 a h)

-- What the slices of an encoded frame hold.
frame_len : (d : MotionDatagram) → length (encode d) ≡ motion_datagram_len
unfolding encode le_bytes
frame_len d = refl

frame_seq : (d : MotionDatagram) → take 8 (encode d) ≡ le_bytes 8 d.seq
unfolding encode le_bytes
frame_seq d = refl

frame_tag : (d : MotionDatagram) → get_or (encode d) 8 0 ≡ (fields d.motion).0
unfolding encode le_bytes
frame_tag d = refl

frame_first :
    (d : MotionDatagram) → take 4 (drop 9 (encode d)) ≡ le_bytes 4 (pattern32 (fields d.motion).1)
unfolding encode le_bytes
frame_first d = refl

frame_second :
    (d : MotionDatagram) → take 4 (drop 13 (encode d)) ≡ le_bytes 4 (pattern32 (fields d.motion).2)
unfolding encode le_bytes
frame_second d = refl

motion_of-fields : (m : Motion) → motion_of (fields m).0 (fields m).1 (fields m).2 ≡ some m
unfolding motion_of
motion_of-fields (set_position x y) = refl
motion_of-fields (move dx dy) = refl

-- `decode` in terms of the slices.
decode_lem :
    (bs : List ℕ)
    → length bs ≡ motion_datagram_len
    → decode bs
      ≡ with_seq (from_le_bytes (take 8 bs)) (
          motion_of
            (get_or bs 8 0)
            (signed32 (from_le_bytes (take 4 (drop 9 bs))))
            (signed32 (from_le_bytes (take 4 (drop 13 bs)))))
unfolding decode
decode_lem bs h = rw (h, decode)

-- decode gives back every datagram whose numbers fit their fields.
pub decode-encode : (d : MotionDatagram) → IsDatagram d → decode (encode d) ≡ some d
decode-encode d h =
    rw
      (
        decode_lem (encode d) (frame_len d),
        frame_tag d,
        frame_seq d,
        frame_first d,
        frame_second d,
        from_le_bytes-le_bytes 8 d.seq h.seq_fits,
        read_i32 (fields d.motion).1 h.first_fits,
        read_i32 (fields d.motion).2 h.second_fits,
        motion_of-fields d.motion,
      )
      (unfold with_seq in refl)

with_seq-motion_of :
    (seq tag : ℕ) (a b : ℤ) {d : MotionDatagram}
    → with_seq seq (motion_of tag a b) ≡ some d
    → (d.seq ≡ seq)
      × ((fields d.motion).0 ≡ tag)
      × ((fields d.motion).1 ≡ a)
      × ((fields d.motion).2 ≡ b)
unfolding with_seq motion_of
with_seq-motion_of seq tag a b h = ground arith

-- What an accepted frame says of its datagram.
decode-some :
    (bs : List ℕ) (d : MotionDatagram)
    → decode bs ≡ some d
    → (length bs ≡ motion_datagram_len)
      × (d.seq ≡ from_le_bytes (take 8 bs))
      × ((fields d.motion).0 ≡ get_or bs 8 0)
      × ((fields d.motion).1 ≡ signed32 (from_le_bytes (take 4 (drop 9 bs))))
      × ((fields d.motion).2 ≡ signed32 (from_le_bytes (take 4 (drop 13 bs))))
unfolding decode
decode-some bs d h = elim (Bool-cases (length bs == motion_datagram_len)) [
  | inl same ↦
      let len : length bs ≡ motion_datagram_len = (==_iff (length bs) motion_datagram_len).0 same in
      let (s, t, a, b) =
        with_seq-motion_of (from_le_bytes (take 8 bs)) (get_or bs 8 0)
          (signed32 (from_le_bytes (take 4 (drop 9 bs))))
          (signed32 (from_le_bytes (take 4 (drop 13 bs)))) (sym (decode_lem bs len) ∙ h) in
      (len, s, t, a, b)
  | inr other ↦ absurd (none-ne-some (rw (other, decode) at h))
]
  where
    none-ne-some : none ≡ some d → ⊥
    none-ne-some e = cc

-- The slices of a frame, put together again.
frame_slices :
    (bs : List ℕ)
    → length bs ≡ motion_datagram_len
    → take 8 bs ++ (get_or bs 8 0 ∷ (take 4 (drop 9 bs) ++ take 4 (drop 13 bs))) ≡ bs
frame_slices bs h =
    let last : take 4 (drop 13 bs) ≡ drop 13 bs =
      take_all 4 (drop 13 bs) (omega (arith, length-drop 13 bs)) in
    let tail : take 4 (drop 9 bs) ++ drop 13 bs ≡ drop 9 bs =
      rw (← drop-drop 4 9 bs) (take-append-drop 4 (drop 9 bs)) in
    let mid : get_or bs 8 0 ∷ drop 9 bs ≡ drop 8 bs = sym (drop_cons 8 bs 0 (omega arith)) in
    rw (last, tail, mid) (take-append-drop 8 bs)

-- Every list of bytes that decode accepts is the encoding of the datagram it answers, whose numbers
-- fit their fields.
pub encode-decode :
    (bs : List ℕ) (d : MotionDatagram)
    → AllBytes bs
    → decode bs ≡ some d
    → (encode d ≡ bs) × IsDatagram d
unfolding encode
encode-decode bs d bytes h =
    let (len, s, t, a, b) = decode-some bs d h in
    let (seq_bytes, seq_lt) =
      le_bytes_chunk 8 (take 8 bs) (rw (length-take 8 bs, len)) (take-AllBytes 8 bs bytes) in
    let (first_bytes, first_lt) =
      le_bytes_chunk 4 (take 4 (drop 9 bs)) (rw (length-take 4 (drop 9 bs), length-drop 9 bs, len))
        (take-AllBytes 4 (drop 9 bs) (drop-AllBytes 9 bs bytes)) in
    let (second_bytes, second_lt) =
      le_bytes_chunk 4 (take 4 (drop 13 bs))
        (rw (length-take 4 (drop 13 bs), length-drop 13 bs, len))
        (take-AllBytes 4 (drop 13 bs) (drop-AllBytes 13 bs bytes)) in
    (
      rw
          (
            s,
            t,
            a,
            b,
            pattern32-signed32 (from_le_bytes (take 4 (drop 9 bs))) first_lt,
            pattern32-signed32 (from_le_bytes (take 4 (drop 13 bs))) second_lt,
            seq_bytes,
            first_bytes,
            second_bytes,
          )
          (frame_slices bs len),
      record {
        seq_fits = rw s seq_lt;
        first_fits = rw a (signed32-IsI32 (from_le_bytes (take 4 (drop 9 bs))) first_lt);
        second_fits = rw b (signed32-IsI32 (from_le_bytes (take 4 (drop 13 bs))) second_lt);
      },
    )
