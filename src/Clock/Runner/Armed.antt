-- ===== src/Clock/Runner/Armed.antt =====
-- internal/clock/clock_runner.go: a running clock has a timer, and errors change nothing.
use mathlib.Core.Path.{subst}
use pomodoro_backend.Base.{
  sym, ◌≡◌, ◌≢◌, true, false, ◌⊎◌, inl, inr, Option-cases, Bool-cases, none, some, arith, pos, ◌<ℤ◌,
  ◌≤ℤ◌,
}
use pomodoro_backend.Clock.Time.{Time}
use pomodoro_backend.Clock.State.{
  ClockState, paused, is_running, is_idle, is_paused, set_state, can_start, can_pause, can_skip,
}
use pomodoro_backend.Clock.Session.{next_session, reset_sessions}
use pomodoro_backend.Clock.Session.Schedule as Schedule
use pomodoro_backend.Clock.Session.Schedule.{
  next_session-IsValid, reset_sessions-IsValid, current_IsSession,
}
use pomodoro_backend.Clock.Timer.{
  Completion, new_session, resumed_session, start_timer, stop_timer, pause_timer, resume_timer,
  complete_begin, complete_end, timer_is_running,
}
use pomodoro_backend.Clock.Redis.{Redis}
use pomodoro_backend.Clock.Runner.{
  ClockRunner, RunnerError, not_startable, stop_save_state, run_save_state,
}
use pomodoro_backend.Clock.Runner.Persist.{clock_is_running}
use pomodoro_backend.Clock.Runner.Control.{
  start_new_session, start_idle, start_paused, start, pause, stop, skip_next, skip, on_complete,
  on_resumed_complete, run_completion, begin_completion, end_completion, complete,
}
use pomodoro_backend.Clock.Runner.Phases.{
  Op, start_op, pause_op, stop_op, skip_op, complete_op, run_op,
}
use pomodoro_backend.Clock.Runner.Invariant.{IsCoherent, next_session_more}
use pomodoro_backend.Clock.Runner.Refine.{IsArmed, answer}

module _ (r : Redis) where
  open r use {Store}

  -- A method that returns an error leaves the clock as it was: its parts, its timer, its
  -- statistics, what Redis holds and the calls of the callbacks.
  run_op_error_unchanged :
      (op : Op) (now : Time) (cr : ClockRunner Store) {e : RunnerError}
      → (run_op r op now cr).1 ≡ some e
      → (run_op r op now cr).0 ≡ cr
  unfolding run_op start pause stop skip
  run_op_error_unchanged start_op now cr h = ground arith
  run_op_error_unchanged pause_op now cr h = ground arith
  run_op_error_unchanged stop_op now cr h = ground arith
  run_op_error_unchanged skip_op now cr h = ground arith
  run_op_error_unchanged complete_op now cr h = ground arith

  start_new_session-IsArmed :
      (now : Time) (cr : ClockRunner Store)
      → Schedule.IsValid cr.session_manager
      → IsArmed (start_new_session r now cr)
  unfolding start_new_session set_state start_timer is_running
  start_new_session-IsArmed now cr v = ground (arith, current_IsSession cr.session_manager v)

  start_idle-IsArmed :
      (now : Time) (cr : ClockRunner Store) → IsCoherent cr → IsArmed (start_idle r now cr)
  unfolding start_idle run_save_state
  start_idle-IsArmed now cr h =
      let ready : ClockRunner Store = record cr {
        session_manager = reset_sessions cr.session_manager;
      } in
      let v = reset_sessions-IsValid cr.session_manager h.sessions in
      ground (arith, start_new_session-IsArmed now ready v)

  start_paused-IsArmed :
      (now : Time) (cr : ClockRunner Store)
      → IsCoherent cr
      → IsArmed cr
      → cr.state_manager.state ≡ paused
      → pos 0 <ℤ cr.timer_manager.time_remaining
      → IsArmed (start_paused r now cr)
  unfolding start_paused set_state run_save_state resume_timer is_running
  start_paused-IsArmed now cr h a p left =
      ground (arith, current_IsSession cr.session_manager h.sessions)

  -- The clock is not paused, or some time is left.
  abbrev pub IsResumable : ClockRunner Store → Type 0
  IsResumable cr = (cr.state_manager.state ≢ paused) ⊎ (pos 0 <ℤ cr.timer_manager.time_remaining)

  start-IsArmed :
      (now : Time) (cr : ClockRunner Store)
      → IsCoherent cr
      → IsArmed cr
      → IsResumable cr
      → IsArmed (start r now cr).0
  unfolding start can_start is_idle is_paused
  start-IsArmed now cr h a left =
      ground (arith, start_idle-IsArmed now cr h, start_paused-IsArmed now cr h a)

  pause-IsArmed :
      (now : Time) (cr : ClockRunner Store)
      → IsCoherent cr
      → IsArmed cr
      → IsArmed (pause r now cr).0
  unfolding pause set_state pause_timer can_pause is_running
  pause-IsArmed now cr h a = ground arith

  stop-IsArmed : (now : Time) (cr : ClockRunner Store) → IsArmed cr → IsArmed (stop r now cr).0
  unfolding stop set_state stop_timer stop_save_state is_running
  stop-IsArmed now cr a = ground arith

  skip_next-IsArmed :
      (now : Time) (cr : ClockRunner Store)
      → Schedule.IsValid cr.session_manager
      → IsArmed (skip_next r now cr)
  unfolding skip_next
  skip_next-IsArmed now cr v =
      let moved : ClockRunner Store = record cr {
        session_manager = (next_session cr.session_manager).0;
      } in
      let next = next_session-IsValid cr.session_manager v in
      ground (arith, start_new_session-IsArmed now moved next, next_session_more cr.session_manager)

  skip-IsArmed :
      (now : Time) (cr : ClockRunner Store) → IsCoherent cr → IsArmed cr → IsArmed (skip r now cr).0
  unfolding skip
  skip-IsArmed now cr h a = elim (Bool-cases (can_skip cr.state_manager)) [
    | inl e ↦ rw e (skip_next-IsArmed now _ h.sessions)
    | inr e ↦ rw e a
  ]

  pub run_completion-IsArmed :
      (c : Completion) (now : Time) (done : ClockState) (cr : ClockRunner Store)
      → Schedule.IsValid cr.session_manager
      → IsArmed (end_completion (run_completion r now (some c) done cr))
  unfolding run_completion on_complete on_resumed_complete set_state start_timer end_completion
      complete_end is_running
  run_completion-IsArmed (new_session d) now done cr v =
      let next = next_session-IsValid cr.session_manager v in
      ground (
        arith,
        current_IsSession (next_session cr.session_manager).0 next,
        next_session_more cr.session_manager,
      )
  run_completion-IsArmed resumed_session now done cr v =
      let next = next_session-IsValid cr.session_manager v in
      ground (
        arith,
        current_IsSession (next_session cr.session_manager).0 next,
        next_session_more cr.session_manager,
      )

  complete-IsArmed :
      (c : Completion) (now : Time) (cr : ClockRunner Store)
      → cr.timer_manager.on_complete ≡ some c
      → Schedule.IsValid cr.session_manager
      → IsArmed (complete r now cr)
  unfolding complete begin_completion end_completion
  complete-IsArmed c now cr e v =
      let begun = record cr { timer_manager = complete_begin cr.timer_manager } in
      let done = cr.timer_manager.current_state in
      subst (λ o. IsArmed (end_completion (run_completion r now o done begun))) (sym e)
        (run_completion-IsArmed c now done begun v)

  complete_op-IsArmed :
      (now : Time) (cr : ClockRunner Store)
      → IsCoherent cr
      → IsArmed cr
      → IsArmed (run_op r complete_op now cr).0
  unfolding run_op
  complete_op-IsArmed now cr h a = elim (Option-cases cr.timer_manager.timer) [
    | inl t ↦ ground arith
    | inr (due, t) ↦
        let (c, answered) = answer r cr t a in
        let done = complete-IsArmed c now cr answered h.sessions in ground arith
  ]

  -- Every method and every completed session leaves a coherent clock's timer running exactly in the
  -- running states, with a callback outside of the idle state, if it was so before and a clock that
  -- is paused has some time left.
  pub run_op-IsArmed :
      (op : Op) (now : Time) (cr : ClockRunner Store)
      → IsCoherent cr
      → IsArmed cr
      → IsResumable cr
      → IsArmed (run_op r op now cr).0
  unfolding run_op
  run_op-IsArmed start_op now cr h a left = start-IsArmed now cr h a left
  run_op-IsArmed pause_op now cr h a left = pause-IsArmed now cr h a
  run_op-IsArmed stop_op now cr h a left = stop-IsArmed now cr a
  run_op-IsArmed skip_op now cr h a left = skip-IsArmed now cr h a
  run_op-IsArmed complete_op now cr h a left = complete_op-IsArmed now cr h a

  -- A coherent clock that was paused with no time left is started without an error, and then it is
  -- in the state of its session, but it has no timer: it does not count as running, a session is
  -- never completed, and a further start is refused.
  pub start_without_time :
      (now later : Time) (cr : ClockRunner Store)
      → IsCoherent cr
      → cr.state_manager.state ≡ paused
      → cr.timer_manager.time_remaining ≤ℤ pos 0
      → let stuck = (run_op r start_op now cr).0 in
        ((run_op r start_op now cr).1 ≡ none)
        × (is_running stuck.state_manager ≡ true)
        × (clock_is_running stuck ≡ false)
        × (run_op r complete_op later stuck ≡ (stuck, none))
        × (run_op r start_op later stuck ≡ (stuck, some not_startable))
  unfolding run_op start start_paused set_state run_save_state resume_timer is_running can_start
      is_idle is_paused clock_is_running timer_is_running
  start_without_time now later cr h p left =
      let session = current_IsSession cr.session_manager h.sessions in
      (ground arith, ground arith, ground arith, ground arith, ground arith)
