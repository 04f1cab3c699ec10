-- ===== src/Clock/Time.antt =====
-- What internal/clock uses of Go's package `time`: instants and durations in nanoseconds.
use pomodoro_backend.Base.{ℕ, ◌-◌, ◌*◌, ◌%◌, Bool, ltb, ◌==◌, ℤ, pos, pos_part, sub_ℕ, ◌+ℤ◌, sat64}

-- `time.Duration`, a number of nanoseconds.
abbrev pub Duration : Type 0
Duration = ℤ

-- `time.Time`, the nanoseconds since Go's zero time. Earlier times have no value here.
abbrev pub Time : Type 0
Time = ℕ

abbrev pub millisecond : ℕ
millisecond = 1000000

abbrev pub second : ℕ
second = 1000 * millisecond

abbrev pub minute : ℕ
minute = 60 * second

abbrev pub hour : ℕ
hour = 60 * minute

abbrev pub day : ℕ
day = 24 * hour

abbrev pub is_zero : Time → Bool
is_zero t = t == 0

abbrev pub before : Time → Time → Bool
before t u = ltb t u

abbrev pub after : Time → Time → Bool
after t u = ltb u t

-- `t.Sub(u)`, which saturates.
unfoldable pub time_sub : Time → Time → Duration
time_sub t u = sat64 (sub_ℕ t u)

-- `t.Add(d)`
unfoldable pub time_add : Time → Duration → Time
time_add t d = pos_part (pos t +ℤ d)

-- `t.Truncate(24 * time.Hour)`
abbrev pub truncate_day : Time → Time
truncate_day t = t - t % day
