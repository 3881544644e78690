-- ===== src/Seamless/Gain.antt =====
-- The gain of the capture engine: deltas are scaled by it, and the fraction that is left is carried
-- (apps/tailkvm-ui/src-tauri/src/seamless.rs).
use tail_kvm.Base.{Bool, ◌&&◌, if◌then◌else◌}
use tail_kvm.Base.Int.{ℤ, pos}
use tail_kvm.Float.{F64}

-- The f64 operations that the engine uses besides those of `F64`; `trunc_i32` is `.trunc() as i32`.
pub record Carry (o : F64) : Type 0 where
  pub add : o.Carrier → o.Carrier → o.Carrier
  pub sub : o.Carrier → o.Carrier → o.Carrier
  pub trunc_i32 : o.Carrier → ℤ
  pub is_finite : o.Carrier → Bool

module _ (o : F64) (k : Carry o) where
  -- The gain that is used for the one that is configured.
  unfoldable pub usable_gain : o.Carrier → o.Carrier
  usable_gain gain =
      if k.is_finite gain && o.lt (o.of_i32 (pos 0)) gain then gain else o.of_i32 (pos 1)

  -- The whole pixels of a scaled delta, and the fraction that is carried to the next one.
  unfoldable pub scaled : o.Carrier → o.Carrier → ℤ → ℤ × o.Carrier
  scaled gain frac acc =
      let exact = k.add (o.mul (o.of_i32 acc) gain) frac in
      let whole = k.trunc_i32 exact in (whole, k.sub exact (o.of_i32 whole))
