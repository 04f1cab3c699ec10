-- ===== src/Clock/Runner/Access.antt =====
-- internal/clock/clock_runner.go: the methods that report on the clock, and those that pass a change
-- on to a part of it.
pub mod Observed
use pomodoro_backend.Base.{ℕ, String, Bool, Option, List, ℤ, Float64}
use pomodoro_backend.Clock.Time.{Time, Duration}
use pomodoro_backend.Clock.State.{ClockState, get_state, is_paused, is_idle}
use pomodoro_backend.Clock.Session.{
  SessionManager, ScheduleError, get_schedule, set_schedule, get_current_session,
  get_total_sessions, get_durations,
}
use pomodoro_backend.Clock.Scheduling.{get_schedule_summary}
use pomodoro_backend.Clock.Stats.{
  SessionRecord, WeeklyStats, reset_statistics, get_statistics, get_timing_statistics,
  get_session_history, get_recent_sessions, get_today_sessions, get_weekly_stats,
  get_average_session_duration, get_productivity_score,
}
use pomodoro_backend.Clock.Timer.{get_time_remaining}
use pomodoro_backend.Clock.Display.{format_duration}
use pomodoro_backend.Clock.Runner.{ClockRunner}

module _ {Store : Type 0} where
  abbrev pub get_clock_state : ClockRunner Store → ClockState
  get_clock_state cr = get_state cr.state_manager

  abbrev pub get_clock_session : ClockRunner Store → ℕ
  get_clock_session cr = get_current_session cr.session_manager

  abbrev pub get_clock_sessions : ClockRunner Store → ℕ
  get_clock_sessions cr = get_total_sessions cr.session_manager

  unfoldable pub get_clock_time_remaining : Time → ClockRunner Store → Duration
  get_clock_time_remaining now cr = get_time_remaining now cr.timer_manager

  unfoldable pub get_formatted_time_remaining : Time → ClockRunner Store → String
  unfolding get_clock_time_remaining
  get_formatted_time_remaining now cr = format_duration (get_clock_time_remaining now cr)

  unfoldable pub clock_is_paused : ClockRunner Store → Bool
  clock_is_paused cr = is_paused cr.state_manager

  unfoldable pub clock_is_idle : ClockRunner Store → Bool
  clock_is_idle cr = is_idle cr.state_manager

  abbrev pub get_clock_statistics : ClockRunner Store → ℤ × ℤ × ℤ
  get_clock_statistics cr = get_statistics cr.stats_manager

  abbrev pub get_clock_timing_statistics : ClockRunner Store → Duration × Duration × Duration
  get_clock_timing_statistics cr = get_timing_statistics cr.stats_manager

  abbrev pub get_clock_session_history : ClockRunner Store → List SessionRecord
  get_clock_session_history cr = get_session_history cr.stats_manager

  abbrev pub get_clock_recent_sessions : ℤ → ClockRunner Store → List SessionRecord
  get_clock_recent_sessions count cr = get_recent_sessions count cr.stats_manager

  abbrev pub get_clock_today_sessions : Time → ClockRunner Store → List SessionRecord
  get_clock_today_sessions now cr = get_today_sessions now cr.stats_manager

  abbrev pub get_clock_weekly_stats : (weekday : Time → ℕ) → Time → ClockRunner Store → WeeklyStats
  get_clock_weekly_stats weekday now cr = get_weekly_stats weekday now cr.stats_manager

  abbrev pub get_clock_average_session_duration : ClockRunner Store → Duration
  get_clock_average_session_duration cr = get_average_session_duration cr.stats_manager

  abbrev pub get_clock_productivity_score : (fl : Float64) → ClockRunner Store → fl.Float
  get_clock_productivity_score fl cr = get_productivity_score fl cr.stats_manager

  unfoldable pub reset_clock_statistics : ClockRunner Store → ClockRunner Store
  reset_clock_statistics cr = record cr { stats_manager = reset_statistics cr.stats_manager }

  -- `ClockRunner.SetSchedule`
  unfoldable pub set_clock_schedule :
      List ClockState → ClockRunner Store → ClockRunner Store × Option ScheduleError
  set_clock_schedule l cr =
      let (sessions, e) = set_schedule l cr.session_manager in
      (record cr { session_manager = sessions }, e)

  abbrev pub get_clock_schedule : ClockRunner Store → List ClockState
  get_clock_schedule cr = get_schedule cr.session_manager

  abbrev pub get_clock_durations : ClockRunner Store → ℤ × ℤ × ℤ
  get_clock_durations cr = get_durations cr.session_manager

  unfoldable pub get_clock_schedule_summary : ClockRunner Store → ClockState → ℕ
  get_clock_schedule_summary cr = get_schedule_summary (get_schedule cr.session_manager)

  abbrev pub get_redis_persistence : ClockRunner Store → Option Store
  get_redis_persistence cr = cr.redis_persistence

  abbrev pub get_session_manager : ClockRunner Store → SessionManager
  get_session_manager cr = cr.session_manager
