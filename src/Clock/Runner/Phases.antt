-- ===== src/Clock/Runner/Phases.antt =====
-- internal/clock/clock_runner.go: the phases that the methods are meant to move the clock through.
use pomodoro_backend.Base.{ℕ, ◌+◌, ◌%◌, Option, none, some}
use pomodoro_backend.Clock.Time.{Time}
use pomodoro_backend.Clock.State.{ClockState, working, short_break, long_break, paused}
use pomodoro_backend.Clock.Redis.{Redis}
use pomodoro_backend.Clock.Runner.{ClockRunner, RunnerError}
use pomodoro_backend.Clock.Runner.Control.{start, pause, stop, skip, complete}

-- The clock rests, runs in a session of the schedule, or is held in one.
pub data Phase : Type 0 where
  resting : Phase
  running : ℕ → Phase
  held : ℕ → Phase

-- What a user calls, and the call of the timer's function when a session is over.
pub data Op : Type 0 where
  start_op pause_op stop_op skip_op complete_op : Op

-- The contract, over a schedule of n sessions: `none` is a refusal.
abbrev pub contract : ℕ → Op → Phase → Option Phase
contract n start_op resting = some (running 0)
contract n start_op (held k) = some (running k)
contract n start_op (running k) = none
contract n pause_op (running k) = some (held k)
contract n pause_op _ = none
contract n stop_op resting = none
contract n stop_op _ = some resting
contract n skip_op resting = none
contract n skip_op (running k) = some (running ((k + 1) % n))
contract n skip_op (held k) = some (running ((k + 1) % n))
contract n complete_op (running k) = some (running ((k + 1) % n))
contract n complete_op p = some p

abbrev pub phase_of : ClockState → ℕ → Phase
phase_of working k = running k
phase_of short_break k = running k
phase_of long_break k = running k
phase_of paused k = held k
phase_of _ k = resting

abbrev pub phase : {Store : Type 0} → ClockRunner Store → Phase
phase cr = phase_of cr.state_manager.state cr.session_manager.current_session

module _ (r : Redis) where
  open r use {Store}

  -- The methods as one function. The timer's function is called only while there is a timer.
  unfoldable pub run_op : Op → Time → ClockRunner Store → ClockRunner Store × Option RunnerError
  run_op start_op now cr = start r now cr
  run_op pause_op now cr = pause r now cr
  run_op stop_op now cr = stop r now cr
  run_op skip_op now cr = skip r now cr
  run_op complete_op now cr = elim cr.timer_manager.timer [
    | none ↦ (cr, none)
    | some _ ↦ (complete r now cr, none)
  ]

-- The phase that a method ends in, if it returns no error.
abbrev pub outcome : {Store : Type 0} → ClockRunner Store × Option RunnerError → Option Phase
outcome (cr, none) = some (phase cr)
outcome (cr, some e) = none
