-- ===== src/Examples/Runs.antt =====
-- Runs of a clock without Redis in which completions go step by step.
use pomodoro_backend.Clock.State.{is_running, paused}
use pomodoro_backend.Clock.Timer.{new_timer_manager}
use pomodoro_backend.Clock.Runner.Invariant.{
  IsCoherent, new_clock_runner-IsCoherent, run_op-IsCoherent,
}
use pomodoro_backend.Clock.Runner.Refine.{IsArmed}
use pomodoro_backend.Clock.Runner.Armed.{run_op-IsArmed}
use pomodoro_backend.Clock.Runner.Phases.{phase, contract}
use pomodoro_backend.Base.{
  ◌+◌, ◌-◌, inl, length, ◌*◌, ◌≡◌, ◌≢◌, refl, true, none, some, [], ◌∷◌, ◌++◌, All, arith, pos,
  ◌+ℤ◌,
}
use pomodoro_backend.Clock.Time.{minute, time_add}
use pomodoro_backend.Clock.State.{
  idle, working, short_break, set_state, can_start, new_state_manager, is_idle,
}
use pomodoro_backend.Clock.Timer.{has_timer, new_session, start_timer}
use pomodoro_backend.Clock.Session.{
  get_current_session_duration, reset_sessions, get_current_session_state, next_session,
  new_session_manager,
}
use pomodoro_backend.Clock.Runner.{ClockRunner, new_clock_runner, run_save_state}
use pomodoro_backend.Clock.Runner.Control.{begin_completion, start}
use pomodoro_backend.Clock.Runner.Phases.{start_op, stop_op, complete_op, run_op}
use pomodoro_backend.Clock.Runner.Interleave.{
  waiting, called, measured, recorded, moved, picked, chosen, entered, proceed, System, Step, call,
  fire, go_on, Reach, fresh, later,
}
use pomodoro_backend.Clock.Runner.Interleave.Alone.{quiet, go_alone, go_alone-refines}
use pomodoro_backend.Clock.Runner.Interleave.Methods.{IsSane}
use pomodoro_backend.Clock.Runner.Interleave.Safety.{IsProper, Reach-IsSane}
use pomodoro_backend.Clock.Runner.Interleave.Undone.{stop_during_entry}
use pomodoro_backend.Examples.Store.{memory}

-- A clock that was started at the time 1000.
abbrev begun : ClockRunner memory.Store
begun = (run_op memory start_op 1000 (new_clock_runner none)).0

begun_reached : Reach memory none (quiet memory begun)
begun_reached = later fresh (call start_op 1000 (λ e. ground arith))

begun_timer : begun.timer_manager.timer ≡ some (1000 + 25 * minute)
unfolding run_op new_clock_runner start can_start new_state_manager is_idle run_save_state
    start_timer time_add ◌+ℤ◌ get_current_session_duration reset_sessions new_session_manager
begun_timer = refl

-- Its first session is over, and the state of the second is set.
entered_second :
    (s : System memory) × Reach memory none s
    × (s.flights ≡ [] ++ (entered short_break (pos (5 * minute)) true ∷ []))
    × (s.clock.state_manager.state ≡ short_break)
unfolding run_op new_clock_runner start can_start new_state_manager is_idle run_save_state
    start_timer time_add ◌+ℤ◌ get_current_session_duration reset_sessions new_session_manager
    begin_completion proceed next_session get_current_session_state set_state
entered_second = (
  _,
  later
      (later
        (later
          (later
            (later
              (later
                (later (later begun_reached (fire (1000 + 25 * minute) begun_timer))
                  (go_on 9000 [] [] waiting refl))
                (go_on 9001 [] [] (called (some (new_session (pos (25 * minute)))) working) refl))
              (go_on 9002 [] [] (measured (pos (25 * minute)) true working) refl))
            (go_on 9003 [] [] (recorded true) refl))
          (go_on 9004 [] [] (moved true) refl))
        (go_on 9005 [] [] (picked short_break true) refl))
      (go_on 9006 [] [] (chosen short_break (pos (5 * minute)) true) refl),
  refl,
  refl,
)

second_busy : entered_second.0.clock.state_manager.state ≢ idle
second_busy e = ground (arith, entered_second.3)

Reach-IsSane_example :
    IsSane entered_second.0.clock
    × All (IsProper entered_second.0.clock.timer_manager) entered_second.0.flights
Reach-IsSane_example = Reach-IsSane memory none entered_second.0 entered_second.1

abbrev halted : System memory
halted = record {
  clock = (run_op memory stop_op 9001 entered_second.0.clock).0;
  flights = entered_second.0.flights;
}

stop_during_entry_example :
    ((run_op memory stop_op 9001 entered_second.0.clock).1 ≡ none)
    × Step memory entered_second.0 halted
    × ((t : System memory) × Step memory halted t
        × Reach memory none t
        × (t.clock.state_manager.state ≡ idle)
        × (has_timer t.clock.timer_manager.timer ≡ true))
stop_during_entry_example =
    stop_during_entry memory none entered_second.0 [] [] short_break (pos (5 * minute)) true 9001
      9002 entered_second.1 entered_second.2 second_busy

begun-IsCoherent : IsCoherent begun
begun-IsCoherent =
    run_op-IsCoherent memory start_op 1000 (new_clock_runner none)
      (new_clock_runner-IsCoherent none)

fresh-IsArmed : IsArmed (new_clock_runner {Store = memory.Store} none)
unfolding new_clock_runner new_state_manager new_timer_manager is_running
fresh-IsArmed = record { matched = refl; answered = inl refl }

fresh_rests : (new_clock_runner {Store = memory.Store} none).state_manager.state ≢ paused
unfolding new_clock_runner new_state_manager
fresh_rests e = ground (arith, e)

begun-IsArmed : IsArmed begun
begun-IsArmed =
    run_op-IsArmed memory start_op 1000 (new_clock_runner none) (new_clock_runner-IsCoherent none)
      fresh-IsArmed (inl fresh_rests)

go_alone-refines_example :
    (cr' : ClockRunner memory.Store) × (go_alone memory 11 (λ i. 20000 - i) (begun, some waiting)
      ≡ (cr', none))
    × Reach memory none (quiet memory cr')
    × (some (phase cr')
        ≡ contract (length begun.session_manager.schedule) complete_op (phase begun))
    × IsCoherent cr'
    × IsArmed cr'
go_alone-refines_example =
    go_alone-refines memory none (λ i. 20000 - i) (1000 + 25 * minute) begun begun_reached
      begun_timer begun-IsCoherent begun-IsArmed
