-- ===== src/Server/ClockHandler.antt =====
-- cmd/clock_handler.go: the state of the system, and the start of the clock, over HTTP.
pub mod Reports
use pomodoro_backend.Base.{
  ℕ, ◌*◌, String, Bool, true, false, Option, none, some, ℤ, pos, if◌then◌else◌,
}
use pomodoro_backend.Clock.Time.{Time, hour, is_zero, time_add}
use pomodoro_backend.Clock.State.{is_idle}
use pomodoro_backend.Clock.Session.{get_current_session, get_schedule, get_durations}
use pomodoro_backend.Clock.Timer.{get_time_remaining}
use pomodoro_backend.Clock.Scheduling.{format_scheduling}
use pomodoro_backend.Clock.Redis.{Redis, SystemState, load_system_state}
use pomodoro_backend.Clock.Runner.{
  ClockRunner, RunnerError, not_startable, not_running, already_idle, not_skippable,
}
use pomodoro_backend.Clock.Runner.Persist.{clock_is_running}
use pomodoro_backend.Clock.Runner.Control.{start}

pub record SystemStateResponse : Type 0 where
  pub work_time_duration : ℤ
  pub long_break_duration : ℤ
  pub short_break_duration : ℤ
  pub scheduling : String
  pub current_session : ℤ
  pub end_time : String
  pub server_time : String
  pub is_active : Bool

-- The text of an error of the clock's methods.
abbrev pub error_text : RunnerError → String
error_text not_startable = "cannot start: clock is not in a startable state"
error_text not_running = "cannot pause: clock is not running"
error_text already_idle = "cannot stop: clock is already idle"
error_text not_skippable = "cannot skip: clock is not running"

module _ (r : Redis) where
  open r use {Store, format_time}

  -- `redisState`, which is nil without Redis and after an error of the load.
  abbrev pub redis_state : Time → ClockRunner Store → Option SystemState
  redis_state loaded cr = elim cr.redis_persistence [
    | none ↦ none
    | some db ↦ load_system_state r loaded db
  ]

  abbrev pub reported_session : Option SystemState → ClockRunner Store → ℤ
  reported_session none cr = pos (get_current_session cr.session_manager)
  reported_session (some s) cr = s.current_session

  -- The end time of a clock that is not idle; `later` is the reading of the clock in
  -- `GetTimeRemaining`.
  abbrev pub reported_end : (now later : Time) → Option SystemState → ClockRunner Store → Time
  reported_end now later none cr = time_add now (get_time_remaining later cr.timer_manager)
  reported_end now later (some s) cr =
      if is_zero s.end_time
      then time_add now (get_time_remaining later cr.timer_manager)
      else s.end_time

  -- `GetSystemState`, which reads the clock at `now` first, at `loaded` for a default state, and at
  -- `later` for the remaining time.
  unfoldable pub get_system_state :
      (now loaded later : Time) → ClockRunner Store → SystemStateResponse
  get_system_state now loaded later cr =
      let (work, short, long) = get_durations cr.session_manager in
      let state = redis_state loaded cr in
      record {
        work_time_duration = work;
        long_break_duration = long;
        short_break_duration = short;
        scheduling = format_scheduling (get_schedule cr.session_manager);
        current_session = reported_session state cr;
        end_time = format_time (
            if is_idle cr.state_manager
            then time_add now (pos (24 * hour))
            else reported_end now later state cr);
        server_time = format_time now;
        is_active = clock_is_running cr;
      }

  -- The clock, the status and the body of the answer.
  unfoldable pub start_new_pomodoro : Time → ClockRunner Store → ClockRunner Store × ℕ × String
  start_new_pomodoro now cr =
      let (cr', e) = start r now cr in
      elim e [ some e ↦ (cr', 500, error_text e) | none ↦ (cr', 200, "Pomodoro started") ]
