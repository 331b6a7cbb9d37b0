-- ===== src/Inference/Float.antt =====
-- The floating-point numbers of the worker, as an interface: scores and seconds are Python floats,
-- of which the code uses the order, the sum and the mean.
use drone_audio_sensor.Common.{ℕ, ◌≡◌, Bool, true}
use drone_audio_sensor.Common.Int.{ℤ}

pub record Float : Type 1 where
  pub Num : Type 0
  pub zero : Num
  -- `a <= b`; it is false where either is not a number.
  pub le : Num → Num → Bool
  -- `a < b`; it is false where either is not a number.
  pub lt : Num → Num → Bool
  pub add : Num → Num → Num
  -- A sum divided by a count.
  pub divide : Num → ℕ → Num
  -- `(n / 2.0) / float(rate)`.
  pub seconds : ℕ → ℤ → Num

-- What IEEE arithmetic with rounding promises of the numbers that are not negative (and so are
-- numbers): the order is transitive, a sum is monotone, and it is not below its summands.
pub record IsIeee (f : Float) : Type 0 where
  pub le_zero : f.le f.zero f.zero ≡ true
  pub le_trans : (a b c : f.Num) → f.le a b ≡ true → f.le b c ≡ true → f.le a c ≡ true
  pub add_nonneg :
      (a x : f.Num) → f.le f.zero a ≡ true → f.le f.zero x ≡ true → f.le f.zero (f.add a x) ≡ true
  pub add_mono :
      (a b x : f.Num)
      → f.le f.zero a ≡ true
      → f.le f.zero x ≡ true
      → f.le a b ≡ true
      → f.le (f.add a x) (f.add b x) ≡ true
  pub le_add :
      (a x : f.Num) → f.le f.zero a ≡ true → f.le f.zero x ≡ true → f.le a (f.add a x) ≡ true
