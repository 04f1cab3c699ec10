-- ===== src/Clock/Display/Minutes.antt =====
-- internal/clock/utils.go: what the text `MM:SS` of a duration says.
use pomodoro_backend.Base.{
  ℕ, ◌+◌, ◌*◌, ◌/◌, ◌%◌, ◌≤◌, ◌<◌, ◌≡◌, some, [], ◌∷◌, pos, half_range, arith, append, split_on,
  two_digits, scan_digits,
}
use pomodoro_backend.Base.Decimal.Reading.{
  two_digits-IsDigits, scan_digits-two_digits, split_on_digits, split_on-append,
}
use pomodoro_backend.Clock.Time.{second, minute}
use pomodoro_backend.Clock.Display.{round, clock_text, format_duration}

-- Rounding to the second gives whole seconds, at most half a second away.
round_near :
    (n : ℕ)
    → n + second < half_range
    → (round n second % second ≡ 0)
      × (2 * round n second ≤ 2 * n + second)
      × (2 * n ≤ 2 * round n second + second)
unfolding round
round_near n fits = ground arith

split-clock_text : (m s : ℕ) → split_on 58 (clock_text m s) ≡ two_digits m ∷ two_digits s ∷ []
unfolding split_on append
split-clock_text m s =
    split_on-append 58 (two_digits m) (append ":" (two_digits s)) (two_digits s)
      (two_digits-IsDigits m) (omega arith)
      (rw (split_on_digits 58 (two_digits s) (two_digits-IsDigits s) (omega arith)))

-- The text of a positive duration is two numbers, parted by a colon: minutes, and seconds below 60.
-- Together they are the duration rounded to the second: at most half a second away. The duration
-- is more than a second below the largest one.
pub format_duration_rounds :
    (n : ℕ)
    → 0 < n
    → n + second < half_range
    → (m s : ℕ) × (split_on 58 (format_duration (pos n)) ≡ two_digits m ∷ two_digits s ∷ [])
      × (scan_digits 0 (two_digits m) ≡ some m)
      × (scan_digits 0 (two_digits s) ≡ some s)
      × (s < 60)
      × (2 * ((60 * m + s) * second) ≤ 2 * n + second)
      × (2 * n ≤ 2 * ((60 * m + s) * second) + second)
unfolding format_duration
format_duration_rounds n some_time fits =
    let r = round n second in
    let near = round_near n fits in
    let whole : (60 * (r / minute) + r / second % 60) * second ≡ r = omega (arith, near) in
    (
      r / minute,
      r / second % 60,
      ground (arith, split-clock_text (r / minute) (r / second % 60)),
      scan_digits-two_digits (r / minute) (omega (arith, near)),
      scan_digits-two_digits (r / second % 60) (omega arith),
      omega arith,
      omega (arith, near, whole),
      omega (arith, near, whole),
    )
