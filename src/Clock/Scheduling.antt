-- ===== src/Clock/Scheduling.antt =====
-- internal/clock/utils.go: schedules as texts, their validation and their summary.
pub mod RoundTrip
pub mod Checks
pub mod Summary
use pomodoro_backend.Base.{
  ℕ, String, remove, split_on, append, suc, ◌+◌, ◌*◌, Bool, true, false, not, ◌&&◌, Option, none,
  some, List, [], ◌∷◌, map, length, if◌then◌else◌, ◌==◌, ℤ, pos, leb_ℤ, ltb_ℤ, sub_ℕ, Float64,
}
use pomodoro_backend.Clock.Time.{Time, Duration, minute, hour, before, time_sub}
use pomodoro_backend.Clock.State.{
  ClockState, clock_state_map, of_string, to_string, state_eq, is_session_state,
}

-- The removal of spaces, newlines and tabs.
unfoldable pub strip : String → String
unfolding remove
strip s = remove b'\t' (remove b'\n' (remove b' ' s))

-- `strings.Split(s, "-")`
unfoldable pub split : String → List String
unfolding split_on
split s = split_on b'-' s

-- The schedule, or the first token that names no state.
pub data Parsed : Type 0 where
  schedule : List ClockState → Parsed
  invalid_token : String → Parsed

abbrev pub add_state : ClockState → Parsed → Parsed
add_state c (schedule l) = schedule (c ∷ l)
add_state c (invalid_token t) = invalid_token t

-- The loop of `ParseScheduling`
unfoldable pub parse_tokens : List String → Parsed
unfolding of_string
parse_tokens [] = schedule []
parse_tokens (t ∷ ts) = elim (clock_state_map t) [
  | none ↦ invalid_token t
  | some _ ↦ add_state (of_string t) (parse_tokens ts)
]

unfoldable pub parse_scheduling : String → Parsed
unfolding strip split parse_tokens
parse_scheduling s = parse_tokens (split (strip s))

-- `strings.Join(tokens, "-")`
unfoldable pub join : List String → String
unfolding append
join [] = ""
join (t ∷ []) = t
join (t ∷ u ∷ ts) = append t (append "-" (join (u ∷ ts)))

-- Every branch of the `switch` in `FormatScheduling` gives the text of the state.
unfoldable pub format_scheduling : List ClockState → String
unfolding join to_string
format_scheduling l = join (map to_string l)

-- The errors of `ValidateSchedule`
pub data ScheduleFault : Type 0 where
  empty_schedule : ScheduleFault
  invalid_state_at : ℕ → ClockState → ScheduleFault

unfoldable pub find_fault : ℕ → List ClockState → Option ScheduleFault
find_fault i [] = none
find_fault i (s ∷ l) =
    if not (is_session_state s) then some (invalid_state_at i s) else find_fault (i + 1) l

unfoldable pub validate_schedule : List ClockState → Option ScheduleFault
unfolding find_fault
validate_schedule [] = some empty_schedule
validate_schedule (s ∷ l) = find_fault 0 (s ∷ l)

-- `GetScheduleSummary` gives a map; here a function from the states to their counts, 0 where the
-- map has no entry.
abbrev pub bump : ClockState → (ClockState → ℕ) → ClockState → ℕ
bump s summary t = if state_eq s t then summary t + 1 else summary t

unfoldable pub summary_loop : (ClockState → ℕ) → List ClockState → ClockState → ℕ
summary_loop summary [] = summary
summary_loop summary (s ∷ l) = summary_loop (bump s summary) l

unfoldable pub get_schedule_summary : List ClockState → ClockState → ℕ
unfolding summary_loop
get_schedule_summary l = summary_loop (λ _. 0) l

-- `IsValidDuration`: from a minute to four hours.
unfoldable pub is_valid_duration : Duration → Bool
is_valid_duration d = leb_ℤ (pos minute) d && leb_ℤ d (pos (4 * hour))

unfoldable pub is_session_complete : (elapsed total : Duration) → Bool
is_session_complete elapsed total = leb_ℤ total elapsed

unfoldable pub get_time_until_next_session : (current next : Time) → Duration
get_time_until_next_session current next =
    if before next current then pos 0 else time_sub next current

module _ (fl : Float64) where
  open fl use {Float, of_int, div, mul, gt}

  unfoldable pub calculate_session_progress : (elapsed total : Duration) → Float
  calculate_session_progress elapsed total =
      let progress = mul (div (of_int elapsed) (of_int total)) (of_int (pos 100)) in
      if leb_ℤ total (pos 0)
      then of_int (pos 0)
      else if gt progress (of_int (pos 100))
      then of_int (pos 100)
      else progress
