-- ===== src/Float.antt =====
-- The f64 arithmetic of the pointer mapping, as an interface: a carrier and the operations that
-- crates/tailkvm-core/src/geometry.rs and crates/tailkvm-win32/src/screen_space.rs use, with the
-- facts of IEEE 754 double arithmetic that the mapping relies on.
pub mod Ratio
pub mod Fixed
use tail_kvm.Base.{◌+◌, ◌^◌, ◌≤◌, ◌<◌, ◌≡◌, Bool, true, false, if◌then◌else◌}
use tail_kvm.Base.Int.{ℤ, pos, pos_part, neg_part, ◌≤ℤ◌}
use tail_kvm.Base.I32.{IsI32}

-- `of_i32` is `as f64`, `leq` and `lt` are `<=` and `<`, and `round_i32` is `.round() as i32`.
pub record F64 : Type 1 where
  pub Carrier : Type 0
  pub of_i32 : ℤ → Carrier
  pub div : Carrier → Carrier → Carrier
  pub mul : Carrier → Carrier → Carrier
  pub leq : Carrier → Carrier → Bool
  pub lt : Carrier → Carrier → Bool
  pub round_i32 : Carrier → ℤ

-- What IEEE 754 says of these on numbers that come from i32. A NaN is not `leq` to itself, so a
-- hypothesis `leq x y ≡ true` excludes it.
pub record IsIeee (o : F64) : Type 0 where
  pub leq_trans : (x y z : o.Carrier) → o.leq x y ≡ true → o.leq y z ≡ true → o.leq x z ≡ true
  pub leq_of_not_lt :
      (x y : o.Carrier) → o.leq x x ≡ true → o.leq y y ≡ true → o.lt x y ≡ false → o.leq y x ≡ true
  pub leq_of_lt : (x y : o.Carrier) → o.lt x y ≡ true → o.leq x y ≡ true
  pub of_mono : (a b : ℤ) → IsI32 a → IsI32 b → a ≤ℤ b → o.leq (o.of_i32 a) (o.of_i32 b) ≡ true
  pub div_mono :
      (a b n : ℤ)
      → IsI32 a
      → IsI32 b
      → IsI32 n
      → pos 1 ≤ℤ n
      → a ≤ℤ b
      → o.leq (o.div (o.of_i32 a) (o.of_i32 n)) (o.div (o.of_i32 b) (o.of_i32 n)) ≡ true
  pub div_zero :
      (n : ℤ) → IsI32 n → pos 1 ≤ℤ n → o.div (o.of_i32 (pos 0)) (o.of_i32 n) ≡ o.of_i32 (pos 0)
  pub div_self : (n : ℤ) → IsI32 n → pos 1 ≤ℤ n → o.div (o.of_i32 n) (o.of_i32 n) ≡ o.of_i32 (pos 1)
  pub mul_comm : (x y : o.Carrier) → o.mul x y ≡ o.mul y x
  pub mul_mono :
      (x y : o.Carrier) (n : ℤ)
      → IsI32 n
      → pos 0 ≤ℤ n
      → o.leq (o.of_i32 (pos 0)) x ≡ true
      → o.leq x y ≡ true
      → o.leq y (o.of_i32 (pos 1)) ≡ true
      → o.leq (o.mul x (o.of_i32 n)) (o.mul y (o.of_i32 n)) ≡ true
  pub zero_mul :
      (n : ℤ) → IsI32 n → pos 0 ≤ℤ n → o.mul (o.of_i32 (pos 0)) (o.of_i32 n) ≡ o.of_i32 (pos 0)
  pub one_mul : (n : ℤ) → IsI32 n → pos 0 ≤ℤ n → o.mul (o.of_i32 (pos 1)) (o.of_i32 n) ≡ o.of_i32 n
  pub round_mono : (x y : o.Carrier) → o.leq x y ≡ true → o.round_i32 x ≤ℤ o.round_i32 y
  pub round_of : (n : ℤ) → IsI32 n → o.round_i32 (o.of_i32 n) ≡ n
