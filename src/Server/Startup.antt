-- ===== src/Server/Startup.antt =====
-- cmd/main.go and cmd/utils.go: the clock when the server starts.
pub mod Clocks
pub mod Waiting
pub mod Serving
use pomodoro_backend.Base.{String, Option, none, some, pos, List, [], ◌∷◌}
use pomodoro_backend.Clock.Time.{Time}
use pomodoro_backend.Clock.Session.{get_current_session, set_current_session}
use pomodoro_backend.Clock.Redis.{Redis}
use pomodoro_backend.Clock.Runner.{ClockRunner, new_clock_runner}
use pomodoro_backend.Clock.Runner.Persist.{set_clock_durations, minutes, saver_tick}
use pomodoro_backend.Clock.Runner.Control.{tick}
use pomodoro_backend.Clock.Runner.Phases.{complete_op, run_op}
use pomodoro_backend.Clock.Runner.Access.{set_clock_schedule}
use pomodoro_backend.Clock.Resume.{new_clock_runner_with_redis}
use pomodoro_backend.Server.Connect.{Postgres, connect_to_db}
use pomodoro_backend.Server.Settings.{PomodoroSetting, default_pomodoro_setting}

-- What happens to a clock by itself: a session is over, a tick, a periodic save.
pub data Event : Type 0 where
  completed : Time → Event
  ticked : Time → Event
  saved : Time → Event

module _ (r : Redis) where
  open r use {Store}

  -- `init`, which reads the position first and sets it again behind `SetSchedule`. `none` is the
  -- end by `log.Fatalf`. No timer's function is called in between.
  unfoldable pub app_init : PomodoroSetting → ClockRunner Store → Option (ClockRunner Store)
  app_init s cr =
      let current = get_current_session cr.session_manager in
      let timed =
        set_clock_durations r (minutes r s.work_time_duration) (minutes r s.short_break_duration)
          (minutes r s.long_break_duration) cr in
      let (scheduled, e) = set_clock_schedule s.scheduling timed in
      elim e [
        | some _ ↦ none
        | none ↦ some (record scheduled {
          session_manager = set_current_session (pos current) scheduled.session_manager;
        })
      ]

  -- The clock that `main` makes first: `redis` is what the store holds, or `none` where the client
  -- cannot reach it.
  unfoldable pub make_clock : (fetched checked now : Time) → Option Store → ClockRunner Store
  make_clock fetched checked now none = new_clock_runner none
  make_clock fetched checked now (some db) = new_clock_runner_with_redis r fetched checked now db

  -- While `connectToDB` waits, the timer's function may be called, if there is a timer.
  unfoldable pub elapse : List Event → ClockRunner Store → ClockRunner Store
  elapse [] cr = cr
  elapse (completed now ∷ events) cr = elapse events (run_op r complete_op now cr).0
  elapse (ticked now ∷ events) cr = elapse events (tick now cr)
  elapse (saved now ∷ events) cr = elapse events (saver_tick r now cr)

  -- `main` up to the server's loop: the clock, or `none` where the program ends before. The events
  -- are those between the start of the clock and `init`.
  unfoldable pub start_server :
      Postgres
      → (env : String → String) → (fetched checked now : Time) → List Event
      → Option Store
      → Option (ClockRunner Store)
  unfolding app_init make_clock elapse
  start_server pg env fetched checked now events redis =
      let cr = elapse events (make_clock fetched checked now redis) in
      elim (connect_to_db pg) [
        | none ↦ none
        | some none ↦ none
        | some (some pool) ↦ elim (default_pomodoro_setting env) [
          | none ↦ none
          | some s ↦ app_init s cr
        ]
      ]
