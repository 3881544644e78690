-- ===== src/Net/Tests.antt =====
-- A motion datagram, its frame and a sequence of arrivals, crates/tailkvm-net/src/motion.rs.
use tail_kvm.Base.{ℕ, ◌≡◌, refl, some, List, [], ◌∷◌, arith}
use tail_kvm.Base.Int.{pos, negsuc}
use tail_kvm.Net.Bytes.{from_le_bytes}
use tail_kvm.Net.Motion.{move, MotionDatagram, encode, decode}
use tail_kvm.Net.Motion.Codec.{IsDatagram, decode-encode, encode-decode}
use tail_kvm.Net.Seq.{gate, accepts, newest_only, accepts-gate}

abbrev moved : MotionDatagram
moved = record { seq = 42; motion = move (pos 5) (negsuc 7) }

moved-IsDatagram : IsDatagram moved
moved-IsDatagram = omega arith

decode-encode_example : decode (encode moved) ≡ some moved
decode-encode_example = decode-encode moved moved-IsDatagram

abbrev frame : List ℕ
frame = 42 ∷ 0 ∷ 0 ∷ 0 ∷ 0 ∷ 0 ∷ 0 ∷ 0 ∷ 2 ∷ 5 ∷ 0 ∷ 0 ∷ 0 ∷ 248 ∷ 255 ∷ 255 ∷ 255 ∷ []

frame_decodes : decode frame ≡ some moved
unfolding decode from_le_bytes
frame_decodes = refl

encode-decode_example : (encode moved ≡ frame) × IsDatagram moved
encode-decode_example = encode-decode frame moved (omega arith) frame_decodes

accepts-gate_example :
    accepts gate (3 ∷ 5 ∷ 4 ∷ 5 ∷ 9 ∷ []) ≡ newest_only [] (3 ∷ 5 ∷ 4 ∷ 5 ∷ 9 ∷ [])
accepts-gate_example = accepts-gate (3 ∷ 5 ∷ 4 ∷ 5 ∷ 9 ∷ [])
