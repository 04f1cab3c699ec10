-- ===== src/Examples/Restarts.antt =====
-- A clock at work and a clock on hold, saved in a store in memory and resumed by a new clock.
use pomodoro_backend.Base.{
  ◌+◌, ◌-◌, ◌*◌, ◌≡◌, refl, some, arith, pos, IsInt64, sat64, sub64, wrap64, ◌-ℤ◌,
}
use pomodoro_backend.Clock.Time.{Time, minute, second, time_sub}
use pomodoro_backend.Clock.State.{working, new_state_manager}
use pomodoro_backend.Clock.Timer.{new_timer_manager, get_time_remaining}
use pomodoro_backend.Clock.Redis.{SystemState, state_fields, save_system_state}
use pomodoro_backend.Clock.Redis.RoundTrip.{whole_second}
use pomodoro_backend.Clock.Runner.{ClockRunner, new_clock_runner}
use pomodoro_backend.Clock.Runner.Persist.{system_state}
use pomodoro_backend.Clock.Resume.{resume_from_redis}
use pomodoro_backend.Clock.Session.{new_session_manager}
use pomodoro_backend.Clock.Resume.Restore.{IsReset, IsFresh, IsRunningAs}
use pomodoro_backend.Clock.Resume.Restart.{restart_loses_pause, restart_keeps_running}
use pomodoro_backend.Examples.Store.{memory, memory-IsRedis, empty_store}
use pomodoro_backend.Examples.Lives.{at_work, on_hold}

-- The times of the save, of the load and of the start.
abbrev saved_at : Time
saved_at = 10 * second

abbrev loaded_at : Time
loaded_at = 60 * second

abbrev store_of : ClockRunner memory.Store → memory.Store
store_of cr = (save_system_state memory (system_state memory saved_at cr) empty_store).0

abbrev restarted : ClockRunner memory.Store → ClockRunner memory.Store
restarted cr = new_clock_runner (some (store_of cr))

restarted-IsFresh : (cr : ClockRunner memory.Store) → IsFresh (restarted cr)
unfolding new_clock_runner new_state_manager new_timer_manager
restarted-IsFresh cr = ground arith

at_work_left :
    get_time_remaining saved_at at_work.timer_manager ≡ pos (25 * minute + 1000 - saved_at)
unfolding get_time_remaining time_sub sat64 sub64 ◌-ℤ◌ wrap64
at_work_left = ground arith

at_work_fits : IsInt64 (get_time_remaining saved_at at_work.timer_manager)
at_work_fits = ground (arith, at_work_left)

on_hold_fits : IsInt64 (get_time_remaining saved_at on_hold.timer_manager)
unfolding get_time_remaining
on_hold_fits = ground arith

restart_loses_pause_example :
    IsReset (resume_from_redis memory loaded_at loaded_at loaded_at (restarted on_hold))
unfolding new_clock_runner save_system_state
restart_loses_pause_example =
    restart_loses_pause memory memory-IsRedis saved_at loaded_at loaded_at loaded_at on_hold
      empty_store (state_fields memory (system_state memory saved_at on_hold)) refl (omega arith)
      on_hold_fits refl refl (restarted on_hold) refl refl

abbrev kept : SystemState
kept = record (system_state memory saved_at at_work) {
  end_time = whole_second (system_state memory saved_at at_work).end_time;
}

restart_keeps_running_example :
    IsRunningAs loaded_at kept 0
      (resume_from_redis memory loaded_at loaded_at loaded_at (restarted at_work))
    × (kept.end_time ≡ whole_second (25 * minute + 1000))
    × (kept.state ≡ working)
unfolding new_clock_runner save_system_state new_session_manager
restart_keeps_running_example =
    restart_keeps_running memory memory-IsRedis saved_at loaded_at loaded_at loaded_at at_work
      empty_store (state_fields memory (system_state memory saved_at at_work)) refl (omega arith)
      at_work_fits refl refl (restarted at_work) refl (25 * minute + 1000 - saved_at) refl refl
      at_work_left (omega arith) (restarted-IsFresh at_work) (omega arith) (omega arith)
      (omega arith) (omega arith)
