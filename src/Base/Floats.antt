-- ===== src/Base/Floats.antt =====
-- What the program uses of Go's `float64`.
use Prim.Native.Nat.{ℕ, ◌≤◌, ◌<◌}
use mathlib.Core.Path.{◌≡◌}
use mathlib.Core.Bool.{Bool}
use pomodoro_backend.Base.Int.{ℤ, pos}

-- `of_int` is the conversion `float64(n)`, and a constant is that of its integer.
pub record Float64 : Type 1 where
  pub Float : Type 0
  pub of_int : ℤ → Float
  pub div : Float → Float → Float
  pub mul : Float → Float → Float
  pub gt : Float → Float → Bool

-- What IEEE 754 says of these, for numbers that are not NaN: rounding keeps order, a quotient of a
-- number and a larger one is at most 1, and small whole numbers are exact.
pub record IsFloat64 (fl : Float64) : Type 1 where
  pub le : fl.Float → fl.Float → Type 0
  pub le_refl : (x : fl.Float) → le x x
  pub of_int_mono : (a b : ℕ) → a ≤ b → le (fl.of_int (pos a)) (fl.of_int (pos b))
  pub div_fraction :
      (a b : ℕ)
      → a ≤ b
      → 0 < b
      → le (fl.of_int (pos 0)) (fl.div (fl.of_int (pos a)) (fl.of_int (pos b)))
        × le (fl.div (fl.of_int (pos a)) (fl.of_int (pos b))) (fl.of_int (pos 1))
  pub mul_mono :
      (x y : fl.Float) (n : ℕ)
      → le x y
      → le (fl.mul x (fl.of_int (pos n))) (fl.mul y (fl.of_int (pos n)))
  pub zero_mul : (n : ℕ) → fl.mul (fl.of_int (pos 0)) (fl.of_int (pos n)) ≡ fl.of_int (pos 0)
  pub one_mul : (n : ℕ) → fl.mul (fl.of_int (pos 1)) (fl.of_int (pos n)) ≡ fl.of_int (pos n)
