-- ===== src/Base/I32.antt =====
-- Rust's i32 as an integer, with the wrap-around of a release build written out.
use tail_kvm.Base.{
  ℕ, ◌+◌, ◌-◌, ◌/◌, ◌%◌, ◌^◌, ◌≤◌, ◌<◌, ◌≡◌, Bool, false, Option, none, some, arith, ltb, leb,
  if◌then◌else◌,
}
use tail_kvm.Base.Int.{
  ℤ, pos, negsuc, pos_part, neg_part, sub_ℕ, ◌+ℤ◌, ◌-ℤ◌, ◌≤ℤ◌, ltb_ℤ, +ℤ_parts, -ℤ_parts,
}

-- The value that a 32-bit pattern stands for.
abbrev pub signed32 : ℕ → ℤ
signed32 w = if ltb w (2 ^ 31) then pos w else negsuc (2 ^ 32 - w - 1)

-- The 32-bit pattern of an integer, taken modulo 2 ^ 32.
abbrev pub pattern32 : ℤ → ℕ
pattern32 (pos n) = n % 2 ^ 32
pattern32 (negsuc n) = 2 ^ 32 - 1 - n % 2 ^ 32

unfoldable pub wrap32 : ℤ → ℤ
wrap32 a = signed32 (pattern32 a)

-- -(2 ^ 31) ≤ a ≤ 2 ^ 31 - 1
abbrev pub IsI32 : ℤ → Type 0
IsI32 a = (neg_part a ≤ pos_part a + 2 ^ 31) × (pos_part a < neg_part a + 2 ^ 31)

pub wrap32_exact : (a : ℤ) → IsI32 a → wrap32 a ≡ a
unfolding wrap32
wrap32_exact (pos n) h = ground arith
wrap32_exact (negsuc n) h = ground arith

pub wrap32-IsI32 : (a : ℤ) → IsI32 (wrap32 a)
unfolding wrap32
wrap32-IsI32 (pos n) = ground arith
wrap32-IsI32 (negsuc n) = ground arith

-- `a + b` and `a - b` on i32.
unfoldable pub add_i32 : ℤ → ℤ → ℤ
unfolding wrap32 ◌+ℤ◌
add_i32 a b = wrap32 (a +ℤ b)

unfoldable pub sub_i32 : ℤ → ℤ → ℤ
unfolding wrap32 ◌-ℤ◌
sub_i32 a b = wrap32 (a -ℤ b)

abbrev pub leb_ℤ : ℤ → ℤ → Bool
leb_ℤ a b = leb (pos_part a + neg_part b) (pos_part b + neg_part a)

pub ltb_ℤ-false : (a b : ℤ) → b ≤ℤ a → ltb_ℤ a b ≡ false
ltb_ℤ-false a b h = ground arith

pub leb_ℤ-false : (a b : ℤ) → b +ℤ pos 1 ≤ℤ a → leb_ℤ a b ≡ false
leb_ℤ-false a b h = ground (arith, +ℤ_parts b (pos 1))

abbrev pub max_i32 : ℤ → ℤ → ℤ
max_i32 a b = if leb_ℤ a b then b else a

-- `v.clamp(lo, hi)`: Rust asserts `lo <= hi`, and `none` is that panic.
unfoldable pub clamp_value : ℤ → ℤ → ℤ → ℤ
clamp_value v lo hi = if ltb_ℤ v lo then lo else if ltb_ℤ hi v then hi else v

unfoldable pub clamp_i32 : ℤ → ℤ → ℤ → Option ℤ
clamp_i32 v lo hi = if leb_ℤ lo hi then some (clamp_value v lo hi) else none

pub clamp_i32-some : (v lo hi : ℤ) → lo ≤ℤ hi → clamp_i32 v lo hi ≡ some (clamp_value v lo hi)
unfolding clamp_i32
clamp_i32-some v lo hi h = ground arith

pub clamp_value_within :
    (v lo hi : ℤ) → lo ≤ℤ hi → (lo ≤ℤ clamp_value v lo hi) × (clamp_value v lo hi ≤ℤ hi)
unfolding clamp_value
clamp_value_within v lo hi h = ground arith

pub clamp_value_same : (v lo hi : ℤ) → lo ≤ℤ v → v ≤ℤ hi → clamp_value v lo hi ≡ v
unfolding clamp_value
clamp_value_same v lo hi h k = ground arith

-- `n / 2` on an i32, which rounds towards zero.
abbrev pub half_i32 : ℤ → ℤ
half_i32 (pos n) = pos (n / 2)
half_i32 (negsuc n) = sub_ℕ 0 ((n + 1) / 2)

-- `i32::saturating_add`
unfoldable pub saturating_add_i32 : ℤ → ℤ → ℤ
unfolding clamp_value ◌+ℤ◌
saturating_add_i32 a b = clamp_value (a +ℤ b) (negsuc (2 ^ 31 - 1)) (pos (2 ^ 31 - 1))

-- Where the true sum fits, the wrapped one has its parts.
pub add_i32_parts :
    (a b : ℤ)
    → neg_part a + neg_part b ≤ pos_part a + pos_part b + 2 ^ 31
    → pos_part a + pos_part b < neg_part a + neg_part b + 2 ^ 31
    → pos_part (add_i32 a b) + neg_part a + neg_part b
      ≡ neg_part (add_i32 a b) + pos_part a + pos_part b
unfolding add_i32
add_i32_parts a b h k = ground (arith, wrap32_exact (a +ℤ b), +ℤ_parts a b)

pub add_i32_exact : (a b : ℤ) → IsI32 (a +ℤ b) → add_i32 a b ≡ a +ℤ b
unfolding add_i32
add_i32_exact a b h = wrap32_exact (a +ℤ b) h

pub sub_i32_parts :
    (a b : ℤ)
    → neg_part a + pos_part b ≤ pos_part a + neg_part b + 2 ^ 31
    → pos_part a + neg_part b < neg_part a + pos_part b + 2 ^ 31
    → pos_part (sub_i32 a b) + neg_part a + pos_part b
      ≡ neg_part (sub_i32 a b) + pos_part a + neg_part b
unfolding sub_i32
sub_i32_parts a b h k = ground (arith, wrap32_exact (a -ℤ b), -ℤ_parts a b)

pub ruleset i32_laws = (arith, +ℤ_parts, -ℤ_parts, add_i32_parts, sub_i32_parts)

-- A screen coordinate or length: its magnitude is below 2 ^ 28, so that the sums of a few fit.
abbrev pub IsCoord : ℤ → Type 0
IsCoord a = (neg_part a ≤ pos_part a + 2 ^ 28) × (pos_part a ≤ neg_part a + 2 ^ 28)
