-- ===== src/Examples/Lives.antt =====
-- Clocks with the default schedule: one that was just made, one at work in its first session, one
-- held in it, and one held with no time left.
use pomodoro_backend.Base.{
  ℕ, ◌+◌, ◌-◌, ◌<◌, ◌*◌, ◌≡◌, ◌≢◌, refl, Bool, true, false, inr, Option, none, some, [], ◌∷◌, arith,
  pos,
}
use pomodoro_backend.Clock.Time.{Time, minute}
use pomodoro_backend.Clock.State.{ClockState, idle, working, paused, is_running}
use pomodoro_backend.Clock.Session.{SessionManager, default_schedule, get_current_session_state}
use pomodoro_backend.Clock.Stats.{StatisticsManager}
use pomodoro_backend.Clock.Timer.{new_session, TimerManager}
use pomodoro_backend.Clock.Runner.{ClockRunner, new_clock_runner, not_startable}
use pomodoro_backend.Clock.Runner.Persist.{clock_is_running}
use pomodoro_backend.Clock.Runner.Control.{end_completion, run_completion}
use pomodoro_backend.Clock.Runner.Phases.{
  start_op, pause_op, skip_op, complete_op, running, resting, phase, run_op, outcome,
}
use pomodoro_backend.Clock.Runner.Invariant.{IsCoherent}
use pomodoro_backend.Clock.Runner.Refine.{IsArmed, run_op-refines}
use pomodoro_backend.Clock.Runner.Armed.{run_op-IsArmed, start_without_time}
use pomodoro_backend.Clock.Runner.Traces.{
  run_ops, run_ops-IsCoherent, completions, completions_cycle,
}
use pomodoro_backend.Clock.Runner.Races.{
  stopped, stop_during_completion, skipped, skip_during_completion,
}
use pomodoro_backend.Clock.Runner.Liveness.{first, every_session_comes}
use pomodoro_backend.Examples.Store.{memory, empty_store}

abbrev sessions : SessionManager
sessions = record {
  work_duration = pos (25 * minute);
  short_break_duration = pos (5 * minute);
  long_break_duration = pos (15 * minute);
  schedule = default_schedule;
  current_session = 0;
}

abbrev no_statistics : StatisticsManager
no_statistics = record {
  total_work_sessions = pos 0;
  total_short_breaks = pos 0;
  total_long_breaks = pos 0;
  total_work_time = pos 0;
  total_break_time = pos 0;
  total_session_time = pos 0;
  session_history = [];
}

-- A timer for the first session that is due at a time, or held with what is left.
abbrev timer_of : Option Time → Bool → Time → ℕ → TimerManager
timer_of due set paused_at left = record {
  timer = due;
  ticker = set;
  cancel = set;
  start_time = 1000;
  pause_time = paused_at;
  time_remaining = pos left;
  session_duration = pos (25 * minute);
  current_state = working;
  on_tick = true;
  on_complete = some (new_session (pos (25 * minute)));
  is_completing = false;
}

abbrev pub clock : ClockState → TimerManager → ClockRunner memory.Store
clock state timer = record {
  state_manager = record { state = state };
  session_manager = sessions;
  timer_manager = timer;
  stats_manager = no_statistics;
  redis_persistence = some empty_store;
  saver = true;
  callbacks = record { on_state_change = true; on_tick = true; on_complete = true };
  notices = [];
}

abbrev pub at_work : ClockRunner memory.Store
at_work = clock working (timer_of (some (1000 + 25 * minute)) true 0 0)

abbrev pub on_hold : ClockRunner memory.Store
on_hold = clock paused (timer_of none false 5000 (25 * minute - 4000))

abbrev out_of_time : ClockRunner memory.Store
out_of_time = clock paused (timer_of none false (2000 + 25 * minute) 0)

at_work-IsCoherent : IsCoherent at_work
unfolding get_current_session_state
at_work-IsCoherent = ground arith

on_hold-IsCoherent : IsCoherent on_hold
unfolding get_current_session_state
on_hold-IsCoherent = ground arith

out_of_time-IsCoherent : IsCoherent out_of_time
unfolding get_current_session_state
out_of_time-IsCoherent = ground arith

at_work-IsArmed : IsArmed at_work
unfolding is_running
at_work-IsArmed = ground arith

on_hold-IsArmed : IsArmed on_hold
unfolding is_running
on_hold-IsArmed = ground arith

run_op-refines_example : outcome (run_op memory skip_op 7000 on_hold) ≡ some (running 1)
run_op-refines_example =
    run_op-refines memory skip_op 7000 on_hold on_hold-IsCoherent on_hold-IsArmed

run_ops-IsCoherent_example : IsCoherent (
    run_ops memory
      ((start_op, 1000)
        ∷ (pause_op, 5000)
        ∷ (start_op, 6000)
        ∷ (complete_op, 9000)
        ∷ (skip_op, 9001)
        ∷ [])
      (new_clock_runner (some empty_store)))
run_ops-IsCoherent_example = run_ops-IsCoherent memory (some empty_store) (
    (start_op, 1000)
    ∷ (pause_op, 5000)
    ∷ (start_op, 6000)
    ∷ (complete_op, 9000)
    ∷ (skip_op, 9001)
    ∷ [])

run_op-IsArmed_example : IsArmed (run_op memory start_op 7000 on_hold).0
run_op-IsArmed_example =
    run_op-IsArmed memory start_op 7000 on_hold on_hold-IsCoherent on_hold-IsArmed
      (inr (omega arith))

completions_cycle_example :
    phase (completions memory (10000 ∷ 20000 ∷ 30000 ∷ []) at_work) ≡ running 3
completions_cycle_example =
    completions_cycle memory (10000 ∷ 20000 ∷ 30000 ∷ []) 0 at_work at_work-IsCoherent
      at_work-IsArmed refl (omega arith)

busy : working ≢ idle
busy e = ground arith

stop_during_completion_example :
    ((stopped memory 9000 at_work).1 ≡ none)
    × (phase (stopped memory 9000 at_work).0 ≡ resting)
    × (phase (
          end_completion (
            run_completion memory 9001
              (some (new_session (pos (25 * minute))))
              working
              (stopped memory 9000 at_work).0))
        ≡ running 1)
    × IsArmed (
        end_completion (
          run_completion memory 9001
            (some (new_session (pos (25 * minute))))
            working
            (stopped memory 9000 at_work).0))
stop_during_completion_example =
    stop_during_completion memory 9000 9001 (new_session (pos (25 * minute))) working at_work
      at_work-IsCoherent busy

start_without_time_example :
    ((run_op memory start_op 9000 out_of_time).1 ≡ none)
    × (is_running (run_op memory start_op 9000 out_of_time).0.state_manager ≡ true)
    × (clock_is_running (run_op memory start_op 9000 out_of_time).0 ≡ false)
    × (run_op memory complete_op 9500 (run_op memory start_op 9000 out_of_time).0
        ≡ ((run_op memory start_op 9000 out_of_time).0, none))
    × (run_op memory start_op 9500 (run_op memory start_op 9000 out_of_time).0
        ≡ ((run_op memory start_op 9000 out_of_time).0, some not_startable))
start_without_time_example =
    start_without_time memory 9000 9500 out_of_time out_of_time-IsCoherent refl (omega arith)

skip_during_completion_example :
    (outcome (skipped memory 9000 at_work) ≡ some (running 1))
    × (phase (
          end_completion (
            run_completion memory 9001
              (some (new_session (pos (25 * minute))))
              working
              (skipped memory 9000 at_work).0))
        ≡ running 2)
    × IsArmed (
        end_completion (
          run_completion memory 9001
            (some (new_session (pos (25 * minute))))
            working
            (skipped memory 9000 at_work).0))
skip_during_completion_example =
    skip_during_completion memory 9000 9001 (new_session (pos (25 * minute))) working 0 at_work
      at_work-IsCoherent at_work-IsArmed refl

abbrev hourly : ℕ → Time
hourly i = 10000 * i

every_session_comes_example :
    (m : ℕ) × (m < 8) × (phase (completions memory (first m hourly) at_work) ≡ running 5)
every_session_comes_example =
    every_session_comes memory hourly 0 5 at_work at_work-IsCoherent at_work-IsArmed refl
      (omega arith) (omega arith)
