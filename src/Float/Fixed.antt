-- ===== src/Float/Fixed.antt =====
-- A model of the f64 interface in fixed point: integers in units of 1 / 65536, with operations that
-- truncate toward zero. It shows that the facts of `IsIeee` can hold together.
use native.Mathlib.Nat.{mul_comm, zero-div, mul-div_right}
use tail_kvm.Base.{
  ℕ, suc, ◌+◌, ◌-◌, ◌*◌, ◌/◌, ◌≤◌, ◌≡◌, ap, leb→le, true, false, arith, ltb, if◌then◌else◌,
}
use tail_kvm.Base.Int.{ℤ, pos, negsuc, pos_part, ◌≤ℤ◌, ltb_ℤ}
use tail_kvm.Base.I32.{leb_ℤ}
use tail_kvm.Float.{F64, IsIeee}

-- -n
abbrev negate : ℕ → ℤ
negate n = if ltb 0 n then negsuc (n - 1) else pos 0

abbrev of_int : ℤ → ℤ
of_int (pos n) = pos (n * 65536)
of_int (negsuc n) = negsuc (n * 65536 + 65535)

unfoldable pub div_fixed : ℤ → ℤ → ℤ
div_fixed (pos a) b = pos (a * 65536 / pos_part b)
div_fixed (negsuc a) b = negate (suc a * 65536 / pos_part b)

-- The product of the magnitudes, with the sign of the product.
unfoldable pub mul_fixed : ℤ → ℤ → ℤ
mul_fixed (pos a) (pos b) = pos (a * b / 65536)
mul_fixed (pos a) (negsuc b) = negate (a * suc b / 65536)
mul_fixed (negsuc a) (pos b) = negate (suc a * b / 65536)
mul_fixed (negsuc a) (negsuc b) = pos (suc a * suc b / 65536)

unfoldable pub round_fixed : ℤ → ℤ
round_fixed (pos a) = pos ((a + 32768) / 65536)
round_fixed (negsuc a) = negate ((suc a + 32768) / 65536)

unfoldable pub fixed : F64
unfolding div_fixed mul_fixed round_fixed
fixed = record {
  Carrier = ℤ;
  of_i32 = of_int;
  div = div_fixed;
  mul = mul_fixed;
  leq = leb_ℤ;
  lt = ltb_ℤ;
  round_i32 = round_fixed;
}

leq_trans_fixed : (x y z : ℤ) → leb_ℤ x y ≡ true → leb_ℤ y z ≡ true → leb_ℤ x z ≡ true
leq_trans_fixed x y z h k = ground arith

div_le : (a b n : ℕ) → a ≤ b → a / n ≤ b / n
div_le a b n h = grind arith

div_mono_fixed :
    (a b n : ℤ)
    → pos 1 ≤ℤ n
    → a ≤ℤ b
    → leb_ℤ (div_fixed (of_int a) (of_int n)) (div_fixed (of_int b) (of_int n)) ≡ true
unfolding div_fixed
div_mono_fixed (pos a) (pos b) n h le =
    ground
      (arith, div_le (a * 65536 * 65536) (b * 65536 * 65536) (pos_part (of_int n)) (omega arith))
div_mono_fixed (pos a) (negsuc b) n h le = absurd (omega arith)
div_mono_fixed (negsuc a) (pos b) n h le = ground arith
div_mono_fixed (negsuc a) (negsuc b) n h le = ground (
  arith,
  div_le (suc (b * 65536 + 65535) * 65536) (suc (a * 65536 + 65535) * 65536) (pos_part (of_int n))
      (omega arith),
)

mul_comm_fixed : (x y : ℤ) → mul_fixed x y ≡ mul_fixed y x
unfolding mul_fixed
mul_comm_fixed (pos a) (pos b) = rw (mul_comm a b)
mul_comm_fixed (pos a) (negsuc b) = rw (mul_comm a (suc b))
mul_comm_fixed (negsuc a) (pos b) = rw (mul_comm (suc a) b)
mul_comm_fixed (negsuc a) (negsuc b) = rw (mul_comm (suc a) (suc b))

round_mono_fixed : (x y : ℤ) → leb_ℤ x y ≡ true → round_fixed x ≤ℤ round_fixed y
unfolding round_fixed
round_mono_fixed (pos a) (pos b) h = ground arith
round_mono_fixed (pos a) (negsuc b) h = ground arith
round_mono_fixed (negsuc a) (pos b) h = ground arith
round_mono_fixed (negsuc a) (negsuc b) h = ground arith

round_of_fixed : (n : ℤ) → round_fixed (of_int n) ≡ n
unfolding round_fixed
round_of_fixed (pos n) = ground arith
round_of_fixed (negsuc n) = ground arith

div_zero_fixed : (n : ℤ) → pos 1 ≤ℤ n → div_fixed (of_int (pos 0)) (of_int n) ≡ of_int (pos 0)
unfolding div_fixed
div_zero_fixed (pos n) h = ap pos (zero-div (n * 65536))
div_zero_fixed (negsuc n) h = absurd (omega arith)

div_self_fixed : (n : ℤ) → pos 1 ≤ℤ n → div_fixed (of_int n) (of_int n) ≡ of_int (pos 1)
unfolding div_fixed
div_self_fixed (pos n) h = ap pos (mul-div_right 65536 {m = n * 65536} (omega arith))
div_self_fixed (negsuc n) h = absurd (omega arith)

mul_le : (a b n : ℕ) → a ≤ b → a * n ≤ b * n
mul_le a b n h = grind arith

mul_mono_fixed :
    (x y n : ℤ)
    → pos 0 ≤ℤ n
    → leb_ℤ (of_int (pos 0)) x ≡ true
    → leb_ℤ x y ≡ true
    → leb_ℤ (mul_fixed x (of_int n)) (mul_fixed y (of_int n)) ≡ true
unfolding mul_fixed
mul_mono_fixed (pos a) (pos b) (pos n) h low le =
    ground (arith, mul_le a b (n * 65536) (omega (arith, leb→le (a + 0) (b + 0) le)))
mul_mono_fixed (pos a) (negsuc b) (pos n) h low le = ground arith
mul_mono_fixed (negsuc a) y (pos n) h low le = ground arith
mul_mono_fixed x y (negsuc n) h low le = absurd (omega arith)

one_mul_fixed : (n : ℤ) → pos 0 ≤ℤ n → mul_fixed (of_int (pos 1)) (of_int n) ≡ of_int n
unfolding mul_fixed
one_mul_fixed (pos n) h = ground arith
one_mul_fixed (negsuc n) h = absurd (omega arith)

zero_mul_fixed : (n : ℤ) → pos 0 ≤ℤ n → mul_fixed (of_int (pos 0)) (of_int n) ≡ of_int (pos 0)
unfolding mul_fixed
zero_mul_fixed (pos n) h = ground arith
zero_mul_fixed (negsuc n) h = absurd (omega arith)

of_mono_fixed : (a b : ℤ) → a ≤ℤ b → leb_ℤ (of_int a) (of_int b) ≡ true
of_mono_fixed (pos a) (pos b) h = ground arith
of_mono_fixed (pos a) (negsuc b) h = ground arith
of_mono_fixed (negsuc a) (pos b) h = ground arith
of_mono_fixed (negsuc a) (negsuc b) h = ground arith

leq_of_not_lt_fixed : (x y : ℤ) → ltb_ℤ x y ≡ false → leb_ℤ y x ≡ true
leq_of_not_lt_fixed x y h = ground arith

leq_of_lt_fixed : (x y : ℤ) → ltb_ℤ x y ≡ true → leb_ℤ x y ≡ true
leq_of_lt_fixed x y h = ground arith

pub fixed-IsIeee : IsIeee fixed
unfolding fixed
fixed-IsIeee = record {
  leq_trans = leq_trans_fixed;
  leq_of_not_lt = λ x y _ _ h. leq_of_not_lt_fixed x y h;
  leq_of_lt = leq_of_lt_fixed;
  of_mono = λ a b _ _ h. of_mono_fixed a b h;
  div_mono = λ a b n _ _ _ h le. div_mono_fixed a b n h le;
  div_zero = λ n _ h. div_zero_fixed n h;
  div_self = λ n _ h. div_self_fixed n h;
  mul_comm = mul_comm_fixed;
  mul_mono = λ x y n _ h low le _. mul_mono_fixed x y n h low le;
  zero_mul = λ n _ h. zero_mul_fixed n h;
  one_mul = λ n _ h. one_mul_fixed n h;
  round_mono = round_mono_fixed;
  round_of = λ n _. round_of_fixed n;
}
