-- ===== src/Server/ClockHandler/Reports.antt =====
-- cmd/clock_handler.go: what `GetSystemState` reports of the clock.
use pomodoro_backend.Base.{ℕ, ◌+◌, ◌≤◌, ◌<◌, ◌≡◌, ap, ◌∙◌, true, none, some, arith, pos, IsInt64}
use pomodoro_backend.Clock.Time.{Time, second}
use pomodoro_backend.Clock.State.{ClockState, is_session_state, is_idle, is_running}
use pomodoro_backend.Clock.Timer.{has_timer, timer_is_running, get_time_remaining}
use pomodoro_backend.Clock.Timer.Countdown.{time_forth}
use pomodoro_backend.Clock.Redis.{
  Redis, IsRedis, Fields, SystemState, is_valid_state, save_system_state, load_system_state,
}
use pomodoro_backend.Clock.Redis.RoundTrip.{whole_second, load-save_system_state}
use pomodoro_backend.Clock.Runner.{ClockRunner}
use pomodoro_backend.Clock.Runner.Persist.{system_state, clock_is_running}
use pomodoro_backend.Clock.Resume.Restart.{system_state-IsSound, running_end}
use pomodoro_backend.Server.ClockHandler.{redis_state, get_system_state}

module _ (r : Redis) where
  open r use {Store}

  session_valid : (c : ClockState) → is_session_state c ≡ true → is_valid_state c ≡ true
  session_valid c h = ground arith

  saved_state :
      (loaded : Time) (cr : ClockRunner Store) (db : Store) (s : SystemState)
      → cr.redis_persistence ≡ some db
      → load_system_state r loaded db ≡ some s
      → redis_state r loaded cr ≡ some s
  saved_state loaded cr db s connected load = ground arith

  report_of :
      (now loaded later : Time) (s : SystemState) (cr : ClockRunner Store)
      → redis_state r loaded cr ≡ some s
      → is_session_state cr.state_manager.state ≡ true
      → 0 < s.end_time
      → let report = get_system_state r now loaded later cr in
        (report.current_session ≡ s.current_session) × (report.end_time ≡ r.format_time s.end_time)
  unfolding get_system_state is_idle
  report_of now loaded later s cr e session ends = (ground arith, ground arith)

  -- A clock without Redis that runs with d nanoseconds left reports its own position and the end
  -- time in d nanoseconds.
  get_system_state_alone :
      (now loaded later : Time) (d : ℕ) (cr : ClockRunner Store)
      → cr.redis_persistence ≡ none
      → is_session_state cr.state_manager.state ≡ true
      → get_time_remaining later cr.timer_manager ≡ pos d
      → ((get_system_state r now loaded later cr).current_session
          ≡ pos cr.session_manager.current_session)
        × ((get_system_state r now loaded later cr).end_time ≡ r.format_time (now + d))
  unfolding get_system_state is_idle
  get_system_state_alone now loaded later d cr none_there session left =
      (ground arith, ground (arith, time_forth now d))

  -- With the documented behaviour of Redis, a clock that runs in a session, with d nanoseconds left
  -- when its state was saved at a time t without an error, reports after the save its own position,
  -- that it is active, and the end time t + d without the fraction of a second, whenever it is
  -- asked: as long as the store is read without an error, the report does not drift. The position
  -- is at most 100, and d a positive number of 64 bits; t + d is not in the first second of Go's
  -- time.
  pub get_system_state_saved :
      (laws : IsRedis r) (t now loaded later : Time) (cr : ClockRunner Store) (db : Store)
      (m : Fields) (d : ℕ)
      → is_session_state cr.state_manager.state ≡ true
      → has_timer cr.timer_manager.timer ≡ true
      → get_time_remaining t cr.timer_manager ≡ pos d
      → 0 < d
      → second ≤ t + d
      → IsInt64 (pos d)
      → cr.session_manager.current_session ≤ 100
      → (save_system_state r (system_state r t cr) db).1 ≡ true
      → r.hgetall (save_system_state r (system_state r t cr) db).0 "systemState" ≡ some m
      → cr.redis_persistence ≡ some (save_system_state r (system_state r t cr) db).0
      → let report = get_system_state r now loaded later cr in
        (report.current_session ≡ pos cr.session_manager.current_session)
        × (report.is_active ≡ true)
        × (report.end_time ≡ r.format_time (whole_second (t + d)))
  unfolding get_system_state clock_is_running timer_is_running is_running system_state
  get_system_state_saved laws t now loaded later cr db m d session timed left some_left far fits
        small saved read connected =
      let load =
        load-save_system_state r laws loaded (system_state r t cr) db m
          (system_state-IsSound r t cr (session_valid cr.state_manager.state session) small
            (rw left fits))
          saved read in
      let end = running_end r t d cr session left some_left in
      let at = saved_state loaded cr _ _ connected load in
      let later_end : 0 < whole_second (system_state r t cr).end_time = omega (arith, end) in
      let (session_at, end_at) = report_of now loaded later _ cr at session later_end in
      (session_at, ground arith, end_at ∙ ap (λ x. r.format_time (whole_second x)) end)
