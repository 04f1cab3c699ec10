-- ===== src/Clock/Display.antt =====
-- internal/clock/utils.go: durations and sessions as texts for people.
pub mod Minutes
use pomodoro_backend.Base.{
  ℕ, ◌+◌, ◌-◌, ◌*◌, ◌/◌, ◌%◌, String, Bool, true, false, List, [], ◌∷◌, ltb, leb, if◌then◌else◌, ℤ,
  pos, negsuc, half_range, append, decimal, format_int, two_digits,
}
use pomodoro_backend.Clock.Time.{Duration, Time, second, minute, hour, time_add}
use pomodoro_backend.Clock.State.{ClockState, idle, working, short_break, long_break, paused, other}

-- `d.Round(m)` of a duration of n nanoseconds that is positive: to the nearest multiple of m, half
-- of m upwards, where no multiple is out of range.
unfoldable pub round : ℕ → ℕ → ℕ
round n m =
    let r = n % m in
    if ltb (r + r) m
    then n - r
    else if ltb (n + m - r) half_range
    then n + m - r
    else half_range - 1

-- `%02d:%02d`
abbrev pub clock_text : (minutes seconds : ℕ) → String
clock_text m s = append (two_digits m) (append ":" (two_digits s))

-- The numbers `int(d.Minutes())` and `int(d.Seconds()) % 60`: the floats between are exact enough
-- for a duration of whole seconds.
unfoldable pub format_duration : Duration → String
unfolding round
format_duration (negsuc _) = "00:00"
format_duration (pos n) =
    let r = round n second in if leb n 0 then "00:00" else clock_text (r / minute) (r / second % 60)

abbrev pub hours_text : ℕ → String
hours_text h = append (decimal h) " hours"

abbrev pub minutes_text : ℕ → String
minutes_text m = append (decimal m) " minutes"

unfoldable pub format_duration_long : Duration → String
unfolding round
format_duration_long (negsuc _) = "0 minutes"
format_duration_long (pos n) =
    let r = round n minute in
    let h = r / hour in
    let m = r / minute % 60 in
    if leb n 0
    then "0 minutes"
    else if ltb 0 h
    then if ltb 0 m then append (hours_text h) (append " " (minutes_text m)) else hours_text h
    else minutes_text m

unfoldable pub format_time_remaining : Duration → String
unfolding format_duration
format_time_remaining (negsuc _) = "Time's up!"
format_time_remaining (pos n) =
    if leb n 0 then "Time's up!" else append (format_duration (pos n)) " remaining"

abbrev pub unit : ℕ → String → String
unit n s = append (decimal n) s

unfoldable pub format_duration_string : Duration → String
unfolding round
format_duration_string (negsuc _) = "0s"
format_duration_string (pos n) =
    let r = round n second in
    let h = r / hour in
    let m = r / minute % 60 in
    let s = r / second % 60 in
    if leb n 0
    then "0s"
    else if ltb 0 h
    then if ltb 0 m then append (unit h "h") (unit m "m") else unit h "h"
    else if ltb 0 m
    then if ltb 0 s then append (unit m "m") (unit s "s") else unit m "m"
    else unit s "s"

-- The entries of the map that `GetRecommendedDurations` returns.
abbrev pub get_recommended_durations : List (String × Duration)
get_recommended_durations =
    ("classic", pos (25 * minute))
    ∷ ("short", pos (15 * minute))
    ∷ ("long", pos (45 * minute))
    ∷ ("micro", pos (5 * minute))
    ∷ ("short_break", pos (5 * minute))
    ∷ ("long_break", pos (15 * minute))
    ∷ ("micro_break", pos (1 * minute))
    ∷ []

-- `now` is the reading of the clock.
abbrev pub estimate_completion_time : (now : Time) → Duration → Time
estimate_completion_time now remaining = time_add now remaining

-- `%s %d/%d (%s)`
abbrev pub session_text : String → (session_num total_sessions : ℤ) → Duration → String
session_text name n total d = append name (
    append " " (
      append (format_int n)
        (append "/" (append (format_int total) (append " (" (append (format_duration d) ")"))))))

unfoldable pub format_session_info :
    ClockState → (session_num total_sessions : ℤ) → Duration → String
unfolding format_duration
format_session_info working n total d = session_text "Work Session" n total d
format_session_info short_break n total d = session_text "Short Break" n total d
format_session_info long_break n total d = session_text "Long Break" n total d
format_session_info paused n total d = "Session Paused"
format_session_info idle n total d = "Ready to Start"
format_session_info (other s) n total d = "Unknown State"
