-- ===== src/Examples/Parts.antt =====
-- The parts of the clock on their own: its timer, its schedules and its statistics.
use pomodoro_backend.Clock.Scheduling.Summary.{dec, get_schedule_summary-count}
use mathlib.Core.List.{count}
use native.Mathlib.Bridge.{from_ℕ}
use pomodoro_backend.Clock.Scheduling.{get_schedule_summary}
use pomodoro_backend.Base.{◌*◌, ◌≡◌, some, List, [], ◌∷◌, arith, pos}
use pomodoro_backend.Clock.Time.{minute, second, day}
use pomodoro_backend.Clock.State.{ClockState, working, short_break, long_break}
use pomodoro_backend.Clock.Scheduling.{schedule, parse_scheduling, format_scheduling}
use pomodoro_backend.Clock.Scheduling.RoundTrip.{parse-format_scheduling}
use pomodoro_backend.Clock.Stats.{StatisticsManager, new_statistics_manager, record_session}
use pomodoro_backend.Clock.Stats.Totals.{
  IsConsistent, new_statistics_manager-IsConsistent, record_session-IsConsistent,
}
use pomodoro_backend.Clock.Timer.{
  new_session, TimerManager, new_timer_manager, start_timer, pause_timer, resume_timer,
  get_time_remaining,
}
use pomodoro_backend.Clock.Timer.Countdown.{resume_timer_counts_pause}

-- A session of ten seconds that starts at the time 100 s.
abbrev ten : TimerManager
ten =
    start_timer (100 * second) (pos (10 * second)) working (new_session (pos (10 * second)))
      new_timer_manager

-- Paused after four seconds, resumed after three more: a second later one more second is counted,
-- and the three of the pause.
resume_timer_counts_pause_example :
    ((resume_timer (107 * second) (pause_timer (104 * second) ten).0).timer ≡ some (113 * second))
    × (get_time_remaining
          (108 * second)
          (resume_timer (107 * second) (pause_timer (104 * second) ten).0)
        ≡ pos (2 * second))
resume_timer_counts_pause_example =
    resume_timer_counts_pause (100 * second) (10 * second) working (new_session (pos (10 * second)))
      new_timer_manager (omega arith) (104 * second) (omega arith) (omega arith) (107 * second)
      (omega arith) (omega arith) (omega arith) (omega arith) (108 * second) (omega arith)
      (omega arith)

abbrev short : List ClockState
short = working ∷ short_break ∷ working ∷ long_break ∷ []

parse-format_scheduling_example : parse_scheduling (format_scheduling short) ≡ schedule short
parse-format_scheduling_example =
    parse-format_scheduling working (short_break ∷ working ∷ long_break ∷ []) (ground arith)

abbrev some_sessions : StatisticsManager
some_sessions =
    record_session (2 * day) short_break (pos (5 * minute))
      (record_session day working (pos (25 * minute)) new_statistics_manager)

record_session-IsConsistent_example : IsConsistent some_sessions
record_session-IsConsistent_example =
    record_session-IsConsistent (2 * day) short_break (pos (5 * minute))
      (record_session day working (pos (25 * minute)) new_statistics_manager)
      (record_session-IsConsistent day working (pos (25 * minute)) new_statistics_manager
        new_statistics_manager-IsConsistent)

get_schedule_summary-count_example :
    get_schedule_summary short working ≡ from_ℕ (count dec working short)
get_schedule_summary-count_example = get_schedule_summary-count short working
