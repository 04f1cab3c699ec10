-- ===== src/Clock/Runner/Races.antt =====
-- internal/clock/clock_runner.go and timer.go: a method called while a session is being completed.
-- `handleSessionComplete` gives up the timer's lock before it calls `onComplete`, and `onComplete`
-- does not take the lock of the clock, so that a method can run between the two.
use native.Mathlib.Nat.{mod-add-mod}
use pomodoro_backend.Base.{
  ℕ, ◌+◌, ◌%◌, ◌≡◌, true, refl, ◌≢◌, ◌∙◌, ap, Option, none, some, arith, length,
}
use pomodoro_backend.Clock.Time.{Time}
use pomodoro_backend.Clock.State.{ClockState, idle, set_state, can_stop, can_skip, is_idle}
use pomodoro_backend.Clock.Session.{SessionManager, reset_sessions, next_session}
use pomodoro_backend.Clock.Session.Schedule as Schedule
use pomodoro_backend.Clock.Session.Schedule.{reset_sessions-IsValid}
use pomodoro_backend.Clock.Timer.{Completion, stop_timer, complete_begin}
use pomodoro_backend.Clock.Redis.{Redis}
use pomodoro_backend.Clock.Runner.{ClockRunner, RunnerError, stop_save_state}
use pomodoro_backend.Clock.Runner.Control.{
  stop, skip, skip_next, run_completion, begin_completion, end_completion,
}
use pomodoro_backend.Clock.Runner.Phases.{
  running, resting, phase, skip_op, contract, outcome, run_op,
}
use pomodoro_backend.Clock.Runner.Invariant.{IsCoherent, run_op-IsCoherent}
use pomodoro_backend.Clock.Runner.Outcomes.{run_completion-phase}
use pomodoro_backend.Clock.Runner.Refine.{IsArmed, run_op-refines}
use pomodoro_backend.Clock.Runner.Armed.{run_completion-IsArmed}

module _ (r : Redis) where
  open r use {Store}

  -- The clock after a `Stop` that runs between the two parts of a completion.
  abbrev pub stopped : Time → ClockRunner Store → ClockRunner Store × Option RunnerError
  stopped now cr = stop r now (begin_completion cr)

  stopped_lem :
      (now : Time) (cr : ClockRunner Store)
      → cr.state_manager.state ≢ idle
      → ((stopped now cr).1 ≡ none)
        × ((stopped now cr).0.state_manager.state ≡ idle)
        × ((stopped now cr).0.session_manager ≡ reset_sessions cr.session_manager)
  unfolding stop begin_completion can_stop is_idle set_state stop_save_state
  stopped_lem now cr busy = (ground arith, ground arith, ground arith)

  reset_phase : (cr : ClockRunner Store) → cr.state_manager.state ≡ idle → phase cr ≡ resting
  reset_phase cr e = ground arith

  restarted :
      (sm : SessionManager) (cr : ClockRunner Store)
      → cr.session_manager ≡ reset_sessions sm
      → Schedule.IsValid sm
      → Schedule.IsValid cr.session_manager
        × ((cr.session_manager.current_session + 1) % length cr.session_manager.schedule
            ≡ 1 % length sm.schedule)
  unfolding reset_sessions
  restarted sm cr e v = (rw e (reset_sessions-IsValid sm v), rw e)

  -- A coherent clock that is not idle is stopped without an error and rests, but where the session
  -- was just being completed, the completion goes on and starts the session behind the first one,
  -- counted round the schedule.
  pub stop_during_completion :
      (now later : Time) (c : Completion) (done : ClockState) (cr : ClockRunner Store)
      → IsCoherent cr
      → cr.state_manager.state ≢ idle
      → let n = length cr.session_manager.schedule in
        let after = end_completion (run_completion r later (some c) done (stopped now cr).0) in
        ((stopped now cr).1 ≡ none)
        × (phase (stopped now cr).0 ≡ resting)
        × (phase after ≡ running (1 % n))
        × IsArmed after
  stop_during_completion now later c done cr h busy =
      let (accepted, rests, reset) = stopped_lem now cr busy in
      let (v, first) = restarted cr.session_manager (stopped now cr).0 reset h.sessions in
      (
        accepted,
        reset_phase (stopped now cr).0 rests,
        unfold end_completion in
            (run_completion-phase r c later done (stopped now cr).0 v ∙ ap running first),
        run_completion-IsArmed r c later done (stopped now cr).0 v,
      )

  -- The clock after a `Skip` that runs between the two parts of a completion.
  abbrev pub skipped : Time → ClockRunner Store → ClockRunner Store × Option RunnerError
  skipped now cr = skip r now (begin_completion cr)

  -- The skip stops the timer, so that nothing is left of the first part.
  skipped_lem :
      (now : Time) (cr : ClockRunner Store)
      → can_skip cr.state_manager ≡ true
      → skipped now cr ≡ run_op r skip_op now cr
  unfolding run_op skip begin_completion stop_timer complete_begin
  skipped_lem now cr able = rw able refl

  able_to_skip :
      (k : ℕ) (cr : ClockRunner Store) → phase cr ≡ running k → can_skip cr.state_manager ≡ true
  unfolding can_skip is_idle
  able_to_skip k cr p = ground arith

  skipped-schedule :
      (now : Time) (cr : ClockRunner Store)
      → (skipped now cr).0.session_manager.schedule ≡ cr.session_manager.schedule
  unfolding skip skip_next begin_completion next_session
  skipped-schedule now cr = ground arith

  entered :
      (res : ClockRunner Store × Option RunnerError) (k : ℕ)
      → outcome res ≡ some (running k)
      → res.0.session_manager.current_session ≡ k
  entered (cr, e) k h = ground arith

  twice_on : (k n : ℕ) → ((k + 1) % n + 1) % n ≡ (k + 2) % n
  twice_on k n = mod-add-mod (k + 1) n 1 ∙ ap (λ t. t % n) (omega arith)

  -- A coherent clock that runs session k and is skipped without an error starts the next session,
  -- but where session k was just being completed, the completion goes on and starts the one
  -- behind it, counted round the schedule: the skipped clock leaves out a session.
  pub skip_during_completion :
      (now later : Time) (c : Completion) (done : ClockState) (k : ℕ) (cr : ClockRunner Store)
      → IsCoherent cr
      → IsArmed cr
      → phase cr ≡ running k
      → let n = length cr.session_manager.schedule in
        let after = end_completion (run_completion r later (some c) done (skipped now cr).0) in
        (outcome (skipped now cr) ≡ some (running ((k + 1) % n)))
        × (phase after ≡ running ((k + 2) % n))
        × IsArmed after
  skip_during_completion now later c done k cr h a p =
      let n = length cr.session_manager.schedule in
      let same = skipped_lem now cr (able_to_skip k cr p) in
      let next : outcome (skipped now cr) ≡ some (running ((k + 1) % n)) =
        ap outcome same ∙ run_op-refines r skip_op now cr h a ∙ ap (contract n skip_op) p in
      let v : Schedule.IsValid (skipped now cr).0.session_manager =
        rw same (run_op-IsCoherent r skip_op now cr h).sessions in
      let position = entered (skipped now cr) ((k + 1) % n) next in
      (
        next,
        unfold end_completion in
            (run_completion-phase r c later done (skipped now cr).0 v
              ∙ ap running (rw (position, skipped-schedule now cr) (twice_on k n))),
        run_completion-IsArmed r c later done (skipped now cr).0 v,
      )
