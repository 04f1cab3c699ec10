-- ===== src/Clock/Runner/Persist.antt =====
-- internal/clock/persistence_manager.go, and the saving in internal/clock/clock_runner.go.
use pomodoro_backend.Base.{
  String, Bool, true, false, ◌&&◌, not, Option, none, some, if◌then◌else◌, ℤ, pos, ltb_ℤ, div64,
  mul64,
}
use pomodoro_backend.Clock.Time.{Time, Duration, millisecond, minute, hour, time_add}
use pomodoro_backend.Clock.State.{
  ClockState, idle, state_eq, get_state, is_running, is_paused, is_idle,
}
use pomodoro_backend.Clock.Session.{set_durations, get_durations}
use pomodoro_backend.Clock.Timer.{get_time_remaining, timer_is_running}
use pomodoro_backend.Clock.Redis.{
  Redis, PomodoroSettings, SystemState, save_settings, load_settings, save_system_state,
}
use pomodoro_backend.Clock.Redis.Sessions.{Dated, save_session_statistics}
use pomodoro_backend.Clock.Runner.{ClockRunner}

-- `ClockRunner.IsRunning`: the state and the timer agree that the clock runs.
unfoldable pub clock_is_running : {Store : Type 0} → ClockRunner Store → Bool
clock_is_running cr = is_running cr.state_manager && timer_is_running cr.timer_manager

module _ (r : Redis) where
  open r use {Store}

  -- The values that `SaveSystemStateToRedis` computes for the end time and the remaining time.
  abbrev pub saved_end : Time → ClockState → Duration → Time
  saved_end now s left =
      if state_eq s idle
      then time_add now (pos hour)
      else if ltb_ℤ (pos 0) left
      then time_add now left
      else now

  -- In milliseconds.
  abbrev pub saved_left : ClockState → Duration → ℤ
  saved_left s left =
      if state_eq s idle
      then pos 0
      else if ltb_ℤ (pos 0) left
      then div64 left (pos millisecond)
      else pos 0

  -- The record that `SaveSystemStateToRedis` builds.
  unfoldable pub system_state : Time → ClockRunner Store → SystemState
  unfolding clock_is_running
  system_state now cr =
      let s = get_state cr.state_manager in
      let left = get_time_remaining now cr.timer_manager in
      record {
        current_session = pos cr.session_manager.current_session;
        end_time = saved_end now s left;
        timezone = r.timezone;
        state = s;
        time_remaining = saved_left s left;
        is_running = clock_is_running cr;
        is_paused = is_paused cr.state_manager;
      }

  -- `SaveSystemStateToRedis`: what the store holds then, and whether there was no error.
  unfoldable pub stored_state : Time → ClockRunner Store → Option Store × Bool
  unfolding system_state
  stored_state now cr = elim cr.redis_persistence [
    | none ↦ (none, false)
    | some db ↦ let (db', done) = save_system_state r (system_state now cr) db in (some db', done)
  ]

  -- `saveStateToRedis`, which only logs an error.
  abbrev pub save_state : Time → ClockRunner Store → ClockRunner Store
  save_state now cr = record cr { redis_persistence = (stored_state now cr).0 }

  -- `SaveSettingsToRedis`
  unfoldable pub stored_settings : ClockRunner Store → Option Store × Bool
  stored_settings cr =
      let (work, short, long) = get_durations cr.session_manager in
      let settings : PomodoroSettings = record {
        work_time = work;
        short_break_time = short;
        long_break_time = long;
        scheduling = "default";
      } in
      elim cr.redis_persistence [
        | none ↦ (none, false)
        | some db ↦ let (db', done) = save_settings r settings db in (some db', done)
      ]

  -- `PersistenceManager.SaveSessionStatistics`
  unfoldable pub stored_session_statistics :
      Dated r → Time → (kind : String) → Duration → ClockRunner Store → Option Store × Bool
  stored_session_statistics e now kind duration cr = elim cr.redis_persistence [
    | none ↦ (none, false)
    | some db ↦
        let (db', done) = save_session_statistics r e kind duration now db in (some db', done)
  ]

  -- `ClockRunner.SetDurations`
  unfoldable pub set_clock_durations :
      (work short long : Duration) → ClockRunner Store → ClockRunner Store
  set_clock_durations work short long cr =
      let set = record cr { session_manager = set_durations work short long cr.session_manager } in
      record set { redis_persistence = (stored_settings set).0 }

  -- `time.Duration(n) * time.Minute`
  abbrev pub minutes : ℤ → Duration
  minutes n = mul64 n (pos minute)

  -- `LoadSettingsFromRedis`, and whether there was no error.
  unfoldable pub load_settings_from_redis : ClockRunner Store → ClockRunner Store × Bool
  unfolding set_clock_durations
  load_settings_from_redis cr = elim cr.redis_persistence [
    | none ↦ (cr, false)
    | some db ↦ elim (load_settings r db) [
      | none ↦ (cr, false)
      | some s ↦ (
        set_clock_durations (minutes s.work_time) (minutes s.short_break_time)
            (minutes s.long_break_time) cr,
        true,
      )
    ]
  ]

  -- One tick of the periodic save, while its goroutine runs.
  unfoldable pub saver_tick : Time → ClockRunner Store → ClockRunner Store
  saver_tick now cr = if cr.saver && not (is_idle cr.state_manager) then save_state now cr else cr
