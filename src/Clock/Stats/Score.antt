-- ===== src/Clock/Stats/Score.antt =====
-- internal/clock/statistics.go: the productivity score is a percentage.
use mathlib.Core.Path.{subst}
use pomodoro_backend.Base.{
  ℕ, zero, suc, ◌+◌, ◌≤◌, ◌<◌, ◌≡◌, refl, pos, half_range, add64, wrap64, ◌+ℤ◌, Float64, IsFloat64,
  arith,
}
use pomodoro_backend.Clock.Stats.{StatisticsManager, get_productivity_score}

sum_fits :
    (w s l : ℕ) → w + s + l < half_range → add64 (add64 (pos w) (pos s)) (pos l) ≡ pos (w + s + l)
unfolding add64 wrap64 ◌+ℤ◌
sum_fits w s l fits = ground arith

module _ (fl : Float64) (laws : IsFloat64 fl) where
  open fl use {Float, of_int, div, mul}
  open laws use {le}

  percentage :
      (a b : ℕ)
      → a ≤ b
      → 0 < b
      → le (of_int (pos 0)) (mul (div (of_int (pos a)) (of_int (pos b))) (of_int (pos 100)))
        × le (mul (div (of_int (pos a)) (of_int (pos b))) (of_int (pos 100))) (of_int (pos 100))
  percentage a b h some_there =
      let (low, high) = laws.div_fraction a b h some_there in
      (
        subst (λ x. le x (mul (div (of_int (pos a)) (of_int (pos b))) (of_int (pos 100))))
            (laws.zero_mul 100) (laws.mul_mono _ _ 100 low),
        subst (λ x. le (mul (div (of_int (pos a)) (of_int (pos b))) (of_int (pos 100))) x)
            (laws.one_mul 100) (laws.mul_mono _ _ 100 high),
      )

  score_none :
      (sm : StatisticsManager)
      → add64 (add64 sm.total_work_sessions sm.total_short_breaks) sm.total_long_breaks ≡ pos 0
      → get_productivity_score fl sm ≡ of_int (pos 0)
  unfolding get_productivity_score
  score_none sm e = rw e refl

  score_some :
      (sm : StatisticsManager) (n : ℕ)
      → add64 (add64 sm.total_work_sessions sm.total_short_breaks) sm.total_long_breaks
        ≡ pos (suc n)
      → get_productivity_score fl sm
        ≡ mul (div (of_int sm.total_work_sessions) (of_int (pos (suc n)))) (of_int (pos 100))
  unfolding get_productivity_score
  score_some sm n e = ground (arith, e)

  bounds :
      (sm : StatisticsManager) (w n : ℕ)
      → sm.total_work_sessions ≡ pos w
      → add64 (add64 sm.total_work_sessions sm.total_short_breaks) sm.total_long_breaks ≡ pos n
      → w ≤ n
      → le (of_int (pos 0)) (get_productivity_score fl sm)
        × le (get_productivity_score fl sm) (of_int (pos 100))
  bounds sm w zero works all h =
      rw (score_none sm all) (laws.le_refl (of_int (pos 0)), laws.of_int_mono 0 100 (omega arith))
  bounds sm w (suc n) works all h =
      rw (score_some sm n all, works) (percentage w (suc n) h (omega arith))

  -- For counts that are not negative and whose sum fits into 64 bits the score lies between 0 and
  -- 100, where floats have the laws of `IsFloat64`.
  get_productivity_score_bounds :
      (sm : StatisticsManager) (w s l : ℕ)
      → sm.total_work_sessions ≡ pos w
      → sm.total_short_breaks ≡ pos s
      → sm.total_long_breaks ≡ pos l
      → w + s + l < half_range
      → le (of_int (pos 0)) (get_productivity_score fl sm)
        × le (get_productivity_score fl sm) (of_int (pos 100))
  get_productivity_score_bounds sm w s l works shorts longs fits =
      bounds sm w (w + s + l) works (rw (works, shorts, longs) (sum_fits w s l fits)) (omega arith)
