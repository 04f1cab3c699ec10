-- ===== src/Server/Settings/RoundTrip.antt =====
-- cmd/utils.go: settings that are written to the environment are read from it.
use pomodoro_backend.Base.{String, ◌≡◌, some, List, ◌∷◌, All, IsInt64, format_int, arith}
use pomodoro_backend.Base.Decimal.Reading.{atoi-format_int}
use pomodoro_backend.Clock.State.{ClockState}
use pomodoro_backend.Clock.Scheduling.{schedule, parse_scheduling, format_scheduling}
use pomodoro_backend.Clock.Scheduling.RoundTrip.{IsNamed, parse-format_scheduling}
use pomodoro_backend.Server.Settings.{PomodoroSetting, default_pomodoro_setting}

-- The environment holds the texts of the settings.
pub record IsWritten (env : String → String) (s : PomodoroSetting) : Type 0 where
  pub work : env "WORK_TIME_DURATION" ≡ format_int s.work_time_duration
  pub short : env "SHORT_BREAK_DURATION" ≡ format_int s.short_break_duration
  pub long : env "LONG_BREAK_DURATION" ≡ format_int s.long_break_duration
  pub schedule : env "SCHEDULING" ≡ format_scheduling s.scheduling

pub record IsWritable (s : PomodoroSetting) : Type 0 where
  pub work : IsInt64 s.work_time_duration
  pub short : IsInt64 s.short_break_duration
  pub long : IsInt64 s.long_break_duration

-- Settings of 64-bit numbers and a schedule of named states that is not empty are read from an
-- environment that holds the decimal texts of the numbers and the text of the schedule.
pub default_pomodoro_setting-IsWritten :
    (env : String → String) (s : PomodoroSetting) (c : ClockState) (l : List ClockState)
    → s.scheduling ≡ c ∷ l
    → All IsNamed (c ∷ l)
    → IsWritable s
    → IsWritten env s
    → default_pomodoro_setting env ≡ some s
unfolding default_pomodoro_setting
default_pomodoro_setting-IsWritten env s c l e named fits w =
    let read : parse_scheduling (env "SCHEDULING") ≡ schedule (c ∷ l) =
      rw (w.schedule, e) (parse-format_scheduling c l named) in
    ground (
      arith,
      read,
      w.work,
      w.short,
      w.long,
      atoi-format_int s.work_time_duration fits.work,
      atoi-format_int s.short_break_duration fits.short,
      atoi-format_int s.long_break_duration fits.long,
    )
