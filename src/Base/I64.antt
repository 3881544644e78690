-- ===== src/Base/I64.antt =====
-- Rust's i64 as an integer, with the wrap-around of a release build written out.
use tail_kvm.Base.{ℕ, ◌+◌, ◌-◌, ◌*◌, ◌%◌, ◌^◌, ◌≤◌, ◌<◌, ◌≡◌, arith, ltb, if◌then◌else◌}
use tail_kvm.Base.Int.{ℤ, pos, negsuc, pos_part, neg_part, ◌+ℤ◌, ◌*ℤ◌}

-- The value that a 64-bit pattern stands for, and the pattern of an integer.
abbrev pub signed64 : ℕ → ℤ
signed64 w = if ltb w (2 ^ 63) then pos w else negsuc (2 ^ 64 - w - 1)

abbrev pub pattern64 : ℤ → ℕ
pattern64 (pos n) = n % 2 ^ 64
pattern64 (negsuc n) = 2 ^ 64 - 1 - n % 2 ^ 64

unfoldable pub wrap64 : ℤ → ℤ
wrap64 a = signed64 (pattern64 a)

-- -(2 ^ 63) ≤ a ≤ 2 ^ 63 - 1
abbrev pub IsI64 : ℤ → Type 0
IsI64 a = (neg_part a ≤ pos_part a + 2 ^ 63) × (pos_part a < neg_part a + 2 ^ 63)

pub wrap64_exact : (a : ℤ) → IsI64 a → wrap64 a ≡ a
unfolding wrap64
wrap64_exact (pos n) h = ground arith
wrap64_exact (negsuc n) h = ground arith

unfoldable pub add_i64 : ℤ → ℤ → ℤ
unfolding wrap64 ◌+ℤ◌
add_i64 a b = wrap64 (a +ℤ b)

unfoldable pub mul_i64 : ℤ → ℤ → ℤ
unfolding wrap64 ◌*ℤ◌
mul_i64 a b = wrap64 (a *ℤ b)

-- The magnitude of an integer, and its square.
abbrev pub magnitude : ℤ → ℕ
magnitude a = pos_part a + neg_part a

square : (a : ℤ) → a *ℤ a ≡ pos (magnitude a * magnitude a)
unfolding ◌*ℤ◌
square (pos n) = ground arith
square (negsuc n) = ground arith

square_bound : (n m : ℕ) → n ≤ m → n * n ≤ m * m
square_bound n m h = grind arith

pub mul_i64_square : (a : ℤ) → magnitude a ≤ 2 ^ 30 → mul_i64 a a ≡ pos (magnitude a * magnitude a)
unfolding mul_i64
mul_i64_square a h = rw (square a) (
    wrap64_exact (pos (magnitude a * magnitude a))
      (omega (arith, square_bound (magnitude a) (2 ^ 30) h)))

pub add_i64_exact : (m n : ℕ) → m + n < 2 ^ 63 → add_i64 (pos m) (pos n) ≡ pos (m + n)
unfolding add_i64
add_i64_exact m n h = ground arith
