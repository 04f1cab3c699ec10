-- ===== src/Clock/Runner/Interleave/Undone.antt =====
-- internal/clock/clock_runner.go: a Stop between the two halves of `startNewSession`, of which the
-- callback of a completion holds no lock.
use pomodoro_backend.Base.{◌≡◌, ◌≢◌, Bool, true, Option, none, List, ◌∷◌, ◌++◌, arith}
use pomodoro_backend.Clock.Time.{Time, Duration}
use pomodoro_backend.Clock.State.{ClockState, idle, set_state, can_stop, is_idle}
use pomodoro_backend.Clock.Timer.{has_timer, start_timer}
use pomodoro_backend.Clock.Redis.{Redis}
use pomodoro_backend.Clock.Runner.{ClockRunner, stop_save_state}
use pomodoro_backend.Clock.Runner.Control.{stop}
use pomodoro_backend.Clock.Runner.Phases.{stop_op, run_op}
use pomodoro_backend.Clock.Runner.Interleave.{
  Stage, entered, proceed, System, Step, call, go_on, Reach, later,
}

module _ (r : Redis) where
  open r use {Store}

  undone_lem :
      (now next : Time) (state : ClockState) (d : Duration) (again : Bool) (cr : ClockRunner Store)
      → cr.state_manager.state ≢ idle
      → ((run_op r stop_op now cr).1 ≡ none)
        × ((proceed r next
              (entered state d again)
              (run_op r stop_op now cr).0).0.state_manager.state
            ≡ idle)
        × (has_timer
              (proceed r next
                (entered state d again)
                (run_op r stop_op now cr).0).0.timer_manager.timer
            ≡ true)
  unfolding run_op stop proceed set_state start_timer can_stop is_idle stop_save_state
  undone_lem now next state d again cr busy = (ground arith, ground arith, ground arith)

  -- In a run where a completion has set the state of its next session, but has not started the
  -- timer yet, a Stop of a clock that is not idle returns no error, and with the next step of the
  -- completion the clock is idle with a timer that runs.
  pub stop_during_entry :
      (store : Option Store) (s : System r) (before after : List Stage) (state : ClockState)
      (d : Duration) (again : Bool) (now next : Time)
      → Reach r store s
      → s.flights ≡ before ++ (entered state d again ∷ after)
      → s.clock.state_manager.state ≢ idle
      → let halted : System r = record {
        clock = (run_op r stop_op now s.clock).0;
        flights = s.flights;
      } in
        ((run_op r stop_op now s.clock).1 ≡ none)
        × Step r s halted
        × ((t : System r) × Step r halted t
            × Reach r store t
            × (t.clock.state_manager.state ≡ idle)
            × (has_timer t.clock.timer_manager.timer ≡ true))
  stop_during_entry store s before after state d again now next h at busy =
      let (accepted, rests, runs) = undone_lem now next state d again s.clock busy in
      let first : Step r s
          (record { clock = (run_op r stop_op now s.clock).0; flights = s.flights }) =
        call stop_op now (λ e. ground arith) in
      (
        accepted,
        first,
        (
          _,
          go_on next before after (entered state d again) at,
          later (later h first) (go_on next before after (entered state d again) at),
          rests,
          runs,
        ),
      )
