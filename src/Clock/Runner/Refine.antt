-- ===== src/Clock/Runner/Refine.antt =====
-- internal/clock/clock_runner.go: the methods refine the contract over phases.
use pomodoro_backend.Base.{
  ◌+◌, ◌%◌, ◌≡◌, ap, refl, Bool, true, false, ◌⊎◌, inl, inr, Option-cases, Option, none, some,
  arith, length,
}
use pomodoro_backend.Clock.Time.{Time}
use pomodoro_backend.Clock.State.{ClockState, idle, is_session_state, is_running}
use pomodoro_backend.Clock.Session.Schedule as Schedule
use pomodoro_backend.Clock.Session.Schedule.{
  next_session-IsValid, reset_sessions-IsValid, current_IsSession,
}
use pomodoro_backend.Clock.Timer.{Completion, has_timer, complete_begin}
use pomodoro_backend.Clock.Redis.{Redis}
use pomodoro_backend.Clock.Runner.{ClockRunner}
use pomodoro_backend.Clock.Runner.Control.{begin_completion, end_completion, complete}
use pomodoro_backend.Clock.Runner.Phases.{
  running, Op, start_op, pause_op, stop_op, skip_op, complete_op, contract, phase, phase_of, run_op,
  outcome,
}
use pomodoro_backend.Clock.Runner.Invariant.{IsCoherent}
use pomodoro_backend.Clock.Runner.Invariant.{IsCoherent}
use pomodoro_backend.Clock.Runner.Outcomes.{
  phase_of_session, start-refines, pause-refines, stop-refines, skip-refines, run_completion-phase,
}

abbrev pub has_answer : Option Completion → Bool
has_answer none = false
has_answer (some _) = true

-- The timer runs exactly in the running states, and outside of the idle state it has a callback.
pub record IsArmed {Store : Type 0} (cr : ClockRunner Store) : Type 0 where
  pub matched : is_running cr.state_manager ≡ has_timer cr.timer_manager.timer
  pub answered : (cr.state_manager.state ≡ idle) ⊎ (has_answer cr.timer_manager.on_complete ≡ true)

module _ (r : Redis) where
  open r use {Store}

  complete-phase :
      (c : Completion) (now : Time) (cr : ClockRunner Store)
      → cr.timer_manager.on_complete ≡ some c
      → Schedule.IsValid cr.session_manager
      → phase (complete r now cr)
        ≡ running ((cr.session_manager.current_session + 1) % length cr.session_manager.schedule)
  unfolding complete begin_completion end_completion
  complete-phase c now cr e v = simp e (
      run_completion-phase r c now cr.timer_manager.current_state
        (record cr { timer_manager = complete_begin cr.timer_manager }) v)

  -- With no timer nothing happens, and no session runs.
  unarmed :
      (s : ClockState) (now : Time) (cr : ClockRunner Store)
      → cr.state_manager.state ≡ s
      → cr.timer_manager.timer ≡ none
      → IsArmed cr
      → outcome (run_op r complete_op now cr)
        ≡ contract
            (length cr.session_manager.schedule)
            complete_op
            (phase_of s cr.session_manager.current_session)
  unfolding run_op is_running
  unarmed s now cr e t a = ground arith

  -- With a timer the clock is in a session, and the timer has a callback.
  pub answer :
      (cr : ClockRunner Store) {due : Time}
      → cr.timer_manager.timer ≡ some due
      → IsArmed cr
      → (c : Completion) × (cr.timer_manager.on_complete ≡ some c)
  unfolding is_running
  answer cr t a = ground arith

  pub in_session :
      (s : ClockState) (cr : ClockRunner Store) {due : Time}
      → cr.state_manager.state ≡ s
      → cr.timer_manager.timer ≡ some due
      → IsArmed cr
      → is_session_state s ≡ true
  unfolding is_running
  in_session s cr e t a = ground arith

  complete-refines :
      (s : ClockState) (now : Time) (cr : ClockRunner Store)
      → cr.state_manager.state ≡ s
      → IsCoherent cr
      → IsArmed cr
      → outcome (run_op r complete_op now cr)
        ≡ contract
            (length cr.session_manager.schedule)
            complete_op
            (phase_of s cr.session_manager.current_session)
  unfolding run_op
  complete-refines s now cr e h a = elim (Option-cases cr.timer_manager.timer) [
    | inl t ↦ unarmed s now cr e t a
    | inr (due, t) ↦
        let (c, answered) = answer cr t a in
        rw
          (t, run_op, phase_of_session s cr.session_manager.current_session (in_session s cr e t a))
          (ap some (complete-phase c now cr answered h.sessions))
  ]

  -- For a coherent clock whose timer is armed in its running states, every method of the user and
  -- every completed session does what the contract says: it refuses exactly where the contract
  -- refuses, and else ends in the phase that the contract gives, where the next session is counted
  -- round the schedule.
  pub run_op-refines :
      (op : Op) (now : Time) (cr : ClockRunner Store)
      → IsCoherent cr
      → IsArmed cr
      → outcome (run_op r op now cr) ≡ contract (length cr.session_manager.schedule) op (phase cr)
  unfolding run_op
  run_op-refines start_op now cr h a = start-refines r cr.state_manager.state now cr refl h
  run_op-refines pause_op now cr h a = pause-refines r cr.state_manager.state now cr refl h
  run_op-refines stop_op now cr h a = stop-refines r cr.state_manager.state now cr refl h
  run_op-refines skip_op now cr h a = skip-refines r cr.state_manager.state now cr refl h
  run_op-refines complete_op now cr h a = complete-refines cr.state_manager.state now cr refl h a
