-- ===== src/Server/Settings.antt =====
-- cmd/utils.go: the settings that the server reads from its environment.
pub mod RoundTrip
use pomodoro_backend.Base.{String, Option, none, some, List, ℤ, atoi}
use pomodoro_backend.Clock.State.{ClockState}
use pomodoro_backend.Clock.Scheduling.{schedule, invalid_token, parse_scheduling}

-- The durations are in minutes.
pub record PomodoroSetting : Type 0 where
  pub work_time_duration : ℤ
  pub short_break_duration : ℤ
  pub long_break_duration : ℤ
  pub scheduling : List ClockState

-- `env` is `os.Getenv`. Errors of `Atoi` are not looked at, and `none` is the end by `log.Fatalf`.
unfoldable pub default_pomodoro_setting : (env : String → String) → Option PomodoroSetting
default_pomodoro_setting env = elim (parse_scheduling (env "SCHEDULING")) [
  | invalid_token _ ↦ none
  | schedule l ↦ some (record {
    work_time_duration = atoi (env "WORK_TIME_DURATION");
    short_break_duration = atoi (env "SHORT_BREAK_DURATION");
    long_break_duration = atoi (env "LONG_BREAK_DURATION");
    scheduling = l;
  })
]
