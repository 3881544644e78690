-- ===== src/Net/Motion.antt =====
-- Motion datagrams, crates/tailkvm-net/src/motion.rs: the fixed 17-byte frame
-- `u64 seq | u8 tag | i32 a | i32 b`, little-endian.
pub mod Codec
use tail_kvm.Base.{
  ℕ, ◌+◌, ◌≡◌, Bool, true, false, Option, none, some, List, [], ◌∷◌, ◌++◌, length, take, drop,
  get_or, ◌==◌, if◌then◌else◌,
}
use tail_kvm.Base.Int.{ℤ}
use tail_kvm.Base.I32.{pattern32, signed32}
use tail_kvm.Net.Bytes.{le_bytes, from_le_bytes}

abbrev pub tag_set_position : ℕ
tag_set_position = 1

abbrev pub tag_move : ℕ
tag_move = 2

abbrev pub motion_datagram_len : ℕ
motion_datagram_len = 8 + 1 + 4 + 4

pub data Motion : Type 0 where
  set_position : ℤ → ℤ → Motion
  move : ℤ → ℤ → Motion

pub record MotionDatagram : Type 0 where
  pub seq : ℕ
  pub motion : Motion

-- The tag and the two coordinates, `let (tag, a, b) = match self.motion`.
abbrev fields : Motion → ℕ × ℤ × ℤ
fields (set_position x y) = (tag_set_position, x, y)
fields (move dx dy) = (tag_move, dx, dy)

-- The buffer, slice by slice.
unfoldable pub encode : MotionDatagram → List ℕ
encode d =
    let (tag, a, b) = fields d.motion in
    le_bytes 8 d.seq ++ (tag ∷ (le_bytes 4 (pattern32 a) ++ le_bytes 4 (pattern32 b)))

-- `match bytes[8]`
motion_of : ℕ → ℤ → ℤ → Option Motion
motion_of tag a b =
    if tag == tag_set_position
    then some (set_position a b)
    else if tag == tag_move
    then some (move a b)
    else none

-- `Some(Self { seq, motion })`, after an unknown tag has returned `None`.
with_seq : ℕ → Option Motion → Option MotionDatagram
with_seq seq none = none
with_seq seq (some m) = some (record { seq = seq; motion = m })

unfoldable pub decode : List ℕ → Option MotionDatagram
unfolding motion_of with_seq
decode bytes =
    let seq = from_le_bytes (take 8 bytes) in
    let a = signed32 (from_le_bytes (take 4 (drop 9 bytes))) in
    let b = signed32 (from_le_bytes (take 4 (drop 13 bytes))) in
    if length bytes == motion_datagram_len
    then with_seq seq (motion_of (get_or bytes 8 0) a b)
    else none
