-- ===== src/Float/Ratio.antt =====
-- The proportion of a position along an edge, clamped to [0, 1], and its image on a length: the
-- expressions that `remote_entry_position` and both `map_ratio` share.
use tail_kvm.Base.{◌≡◌, true, false, arith, if◌then◌else◌}
use tail_kvm.Base.Int.{ℤ, pos, ◌≤ℤ◌}
use tail_kvm.Base.I32.{IsI32}
use tail_kvm.Float.{F64, IsIeee}

module _ (o : F64) where
  -- `x.clamp(0.0, 1.0)`
  pub clamp_unit : o.Carrier → o.Carrier
  clamp_unit x =
      let at_least = if o.lt x (o.of_i32 (pos 0)) then o.of_i32 (pos 0) else x in
      if o.lt (o.of_i32 (pos 1)) at_least then o.of_i32 (pos 1) else at_least

  -- `(a as f64 / n as f64).clamp(0.0, 1.0)`
  unfoldable pub unit_ratio : ℤ → ℤ → o.Carrier
  unfolding clamp_unit
  unit_ratio a n = clamp_unit (o.div (o.of_i32 a) (o.of_i32 n))

  -- `(ratio * n as f64).round() as i32`
  unfoldable pub scale : o.Carrier → ℤ → ℤ
  scale ratio n = o.round_i32 (o.mul ratio (o.of_i32 n))

module _ (o : F64) (law : IsIeee o) where
  open law use {
    leq_trans, leq_of_not_lt, leq_of_lt, of_mono, div_mono, div_zero, div_self, mul_mono, mul_comm,
    zero_mul, one_mul, round_mono, round_of,
  }

  abbrev pub IsUnit : o.Carrier → Type 0
  IsUnit x = (o.leq (o.of_i32 (pos 0)) x ≡ true) × (o.leq x (o.of_i32 (pos 1)) ≡ true)

  zero_le_one : o.leq (o.of_i32 (pos 0)) (o.of_i32 (pos 1)) ≡ true
  zero_le_one = of_mono (pos 0) (pos 1) (omega arith) (omega arith) (omega arith)

  number_of : (a : ℤ) → IsI32 a → o.leq (o.of_i32 a) (o.of_i32 a) ≡ true
  number_of a h = of_mono a a h h (omega arith)

  not_below :
      (x : o.Carrier) (a : ℤ)
      → IsI32 a
      → o.leq x x ≡ true
      → o.lt x (o.of_i32 a) ≡ false
      → o.leq (o.of_i32 a) x ≡ true
  not_below x a h n e = leq_of_not_lt x (o.of_i32 a) n (number_of a h) e

  not_above :
      (x : o.Carrier) (a : ℤ)
      → IsI32 a
      → o.leq x x ≡ true
      → o.lt (o.of_i32 a) x ≡ false
      → o.leq x (o.of_i32 a) ≡ true
  not_above x a h n e = leq_of_not_lt (o.of_i32 a) x (number_of a h) n e

  clamp_unit-IsUnit : (x : o.Carrier) → o.leq x x ≡ true → IsUnit (clamp_unit o x)
  unfolding clamp_unit
  clamp_unit-IsUnit x n = ground (
    arith,
    zero_le_one,
    number_of (pos 0),
    number_of (pos 1),
    not_below x (pos 0),
    not_above x (pos 1),
  )

  clamp_unit_mono :
      (x y : o.Carrier)
      → o.leq x x ≡ true
      → o.leq y y ≡ true
      → o.leq x y ≡ true
      → o.leq (clamp_unit o x) (clamp_unit o y) ≡ true
  unfolding clamp_unit
  clamp_unit_mono x y nx ny le = ground (
    arith,
    zero_le_one,
    number_of (pos 0),
    number_of (pos 1),
    not_below x (pos 0),
    not_above x (pos 1),
    not_below y (pos 0),
    not_above y (pos 1),
    leq_of_lt y (o.of_i32 (pos 0)),
    leq_of_lt (o.of_i32 (pos 1)) x,
    leq_trans x y (o.of_i32 (pos 0)),
    leq_trans (o.of_i32 (pos 1)) x y,
    leq_trans (o.of_i32 (pos 1)) y (o.of_i32 (pos 0)),
    leq_of_lt (o.of_i32 (pos 1)) (o.of_i32 (pos 0)),
    leq_trans (o.of_i32 (pos 1)) (o.of_i32 (pos 0)) y,
  )

  -- What is at or below 0 goes to 0, and what is at or above 1 to 1.
  clamp_unit_low :
      (x : o.Carrier)
      → o.leq x (o.of_i32 (pos 0)) ≡ true
      → o.leq (clamp_unit o x) (o.of_i32 (pos 0)) ≡ true
  unfolding clamp_unit
  clamp_unit_low x le = ground (
    arith,
    number_of (pos 0),
    leq_of_lt (o.of_i32 (pos 1)) x,
    leq_of_lt (o.of_i32 (pos 1)) (o.of_i32 (pos 0)),
    leq_trans (o.of_i32 (pos 1)) x (o.of_i32 (pos 0)),
  )

  clamp_unit_high :
      (x : o.Carrier)
      → o.leq (o.of_i32 (pos 1)) x ≡ true
      → o.leq (o.of_i32 (pos 1)) (clamp_unit o x) ≡ true
  unfolding clamp_unit
  clamp_unit_high x le = ground (
    arith,
    number_of (pos 1),
    leq_of_lt x (o.of_i32 (pos 0)),
    leq_trans (o.of_i32 (pos 1)) x (o.of_i32 (pos 0)),
  )

  pub unit_ratio-IsUnit : (a n : ℤ) → IsI32 a → IsI32 n → pos 1 ≤ℤ n → IsUnit (unit_ratio o a n)
  unfolding unit_ratio clamp_unit
  unit_ratio-IsUnit a n ha hn h =
      clamp_unit-IsUnit (o.div (o.of_i32 a) (o.of_i32 n)) (div_mono a a n ha ha hn h (omega arith))

  pub unit_ratio_mono :
      (a b n : ℤ)
      → IsI32 a
      → IsI32 b
      → IsI32 n
      → pos 1 ≤ℤ n
      → a ≤ℤ b
      → o.leq (unit_ratio o a n) (unit_ratio o b n) ≡ true
  unfolding unit_ratio clamp_unit
  unit_ratio_mono a b n ha hb hn h le =
      clamp_unit_mono (o.div (o.of_i32 a) (o.of_i32 n)) (o.div (o.of_i32 b) (o.of_i32 n))
        (div_mono a a n ha ha hn h (omega arith)) (div_mono b b n hb hb hn h (omega arith))
        (div_mono a b n ha hb hn h le)

  unit_ratio_low :
      (a n : ℤ)
      → IsI32 a
      → IsI32 n
      → pos 1 ≤ℤ n
      → a ≤ℤ pos 0
      → o.leq (unit_ratio o a n) (o.of_i32 (pos 0)) ≡ true
  unfolding unit_ratio clamp_unit
  unit_ratio_low a n ha hn h le =
      clamp_unit_low (o.div (o.of_i32 a) (o.of_i32 n))
        (rw (div_zero n hn h) at (div_mono a (pos 0) n ha (omega arith) hn h le))

  unit_ratio_high :
      (a n : ℤ)
      → IsI32 a
      → IsI32 n
      → pos 1 ≤ℤ n
      → n ≤ℤ a
      → o.leq (o.of_i32 (pos 1)) (unit_ratio o a n) ≡ true
  unfolding unit_ratio clamp_unit
  unit_ratio_high a n ha hn h le =
      clamp_unit_high (o.div (o.of_i32 a) (o.of_i32 n))
        (rw (div_self n hn h) at (div_mono n a n hn ha hn h le))

  pub scale_mono :
      (x y : o.Carrier) (n : ℤ)
      → IsI32 n
      → pos 0 ≤ℤ n
      → o.leq (o.of_i32 (pos 0)) x ≡ true
      → o.leq x y ≡ true
      → o.leq y (o.of_i32 (pos 1)) ≡ true
      → scale o x n ≤ℤ scale o y n
  unfolding scale
  scale_mono x y n hn h low le high =
      round_mono (o.mul x (o.of_i32 n)) (o.mul y (o.of_i32 n)) (mul_mono x y n hn h low le high)

  scale_zero : (n : ℤ) → IsI32 n → pos 0 ≤ℤ n → scale o (o.of_i32 (pos 0)) n ≡ pos 0
  unfolding scale
  scale_zero n hn h = rw (zero_mul n hn h, scale) (round_of (pos 0) (omega arith))

  scale_one : (n : ℤ) → IsI32 n → pos 0 ≤ℤ n → scale o (o.of_i32 (pos 1)) n ≡ n
  unfolding scale
  scale_one n hn h = rw (one_mul n hn h, scale) (round_of n hn)

  pub scale_bounds :
      (x : o.Carrier) (n : ℤ)
      → IsI32 n
      → pos 0 ≤ℤ n
      → IsUnit x
      → (pos 0 ≤ℤ scale o x n) × (scale o x n ≤ℤ n)
  scale_bounds x n hn h u = ground (
    arith,
    scale_zero n hn h,
    scale_one n hn h,
    number_of (pos 0) (omega arith),
    number_of (pos 1) (omega arith),
    scale_mono (o.of_i32 (pos 0)) x n hn h,
    scale_mono x (o.of_i32 (pos 1)) n hn h,
  )

  -- The image of a position on a length `m`, in the order of the positions.
  pub image_bounds :
      (a n m : ℤ)
      → IsI32 a
      → IsI32 n
      → IsI32 m
      → pos 1 ≤ℤ n
      → pos 0 ≤ℤ m
      → (pos 0 ≤ℤ scale o (unit_ratio o a n) m) × (scale o (unit_ratio o a n) m ≤ℤ m)
  image_bounds a n m ha hn hm h k =
      scale_bounds (unit_ratio o a n) m hm k (unit_ratio-IsUnit a n ha hn h)

  pub image_mono :
      (a b n m : ℤ)
      → IsI32 a
      → IsI32 b
      → IsI32 n
      → IsI32 m
      → pos 1 ≤ℤ n
      → pos 0 ≤ℤ m
      → a ≤ℤ b
      → scale o (unit_ratio o a n) m ≤ℤ scale o (unit_ratio o b n) m
  image_mono a b n m ha hb hn hm h k le =
      scale_mono (unit_ratio o a n) (unit_ratio o b n) m hm k (unit_ratio-IsUnit a n ha hn h).0
        (unit_ratio_mono a b n ha hb hn h le) (unit_ratio-IsUnit b n hb hn h).1

  -- Positions before the start go to 0, and those past the end to `m`.
  pub image_start :
      (a n m : ℤ)
      → IsI32 a
      → IsI32 n
      → IsI32 m
      → pos 1 ≤ℤ n
      → pos 0 ≤ℤ m
      → a ≤ℤ pos 0
      → scale o (unit_ratio o a n) m ≡ pos 0
  image_start a n m ha hn hm h k le = ground (
    arith,
    zero_le_one,
    scale_zero m hm k,
    image_bounds a n m ha hn hm h k,
    unit_ratio-IsUnit a n ha hn h,
    scale_mono (unit_ratio o a n) (o.of_i32 (pos 0)) m hm k,
    unit_ratio_low a n ha hn h le,
  )

  pub image_end :
      (a n m : ℤ)
      → IsI32 a
      → IsI32 n
      → IsI32 m
      → pos 1 ≤ℤ n
      → pos 0 ≤ℤ m
      → n ≤ℤ a
      → scale o (unit_ratio o a n) m ≡ m
  image_end a n m ha hn hm h k le = ground (
    arith,
    zero_le_one,
    scale_one m hm k,
    image_bounds a n m ha hn hm h k,
    unit_ratio-IsUnit a n ha hn h,
    number_of (pos 1),
    scale_mono (o.of_i32 (pos 1)) (unit_ratio o a n) m hm k,
    unit_ratio_high a n ha hn h le,
  )
