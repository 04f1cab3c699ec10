-- ===== src/Clock/Runner/Outcomes.antt =====
-- internal/clock/clock_runner.go: the phase that each method ends in.
use pomodoro_backend.Base.{ℕ, ◌+◌, ◌%◌, ◌≡◌, ◌≢◌, ◌∙◌, String, ap, true, some, arith, length}
use pomodoro_backend.Clock.Time.{Time}
use pomodoro_backend.Clock.State.{
  ClockState, idle, working, short_break, long_break, paused, other, is_session_state, is_idle,
  is_paused, set_state, can_start, can_pause, can_stop, can_skip,
}
use pomodoro_backend.Clock.Session.{next_session, reset_sessions, get_current_session_state}
use pomodoro_backend.Clock.Session.Schedule as Schedule
use pomodoro_backend.Clock.Session.Schedule.{
  next_session-IsValid, reset_sessions-IsValid, current_IsSession,
}
use pomodoro_backend.Clock.Session.Cycle.{next_session_mod}
use pomodoro_backend.Clock.Timer.{Completion, new_session, resumed_session}
use pomodoro_backend.Clock.Redis.{Redis}
use pomodoro_backend.Clock.Runner.{ClockRunner, stop_save_state, run_save_state}
use pomodoro_backend.Clock.Runner.Control.{
  start_new_session, skip_next, start_idle, start_paused, start, pause, stop, skip, on_complete,
  on_resumed_complete, run_completion,
}
use pomodoro_backend.Clock.Runner.Phases.{
  running, start_op, pause_op, stop_op, skip_op, contract, phase, phase_of, outcome,
}
use pomodoro_backend.Clock.Runner.Invariant.{IsCoherent, next_session_more}

-- A session's state makes the phase one of running.
pub phase_of_session :
    (s : ClockState) (k : ℕ) → is_session_state s ≡ true → phase_of s k ≡ running k
phase_of_session s k h = ground arith

module _ (r : Redis) where
  open r use {Store}

  -- A coherent clock is in one of the named states.
  not_other :
      (cr : ClockRunner Store) → IsCoherent cr → (t : String) → cr.state_manager.state ≢ other t
  not_other cr h t e = ground (arith, current_IsSession cr.session_manager h.sessions)

  start_new_session-phase :
      (now : Time) (cr : ClockRunner Store)
      → Schedule.IsValid cr.session_manager
      → phase (start_new_session r now cr) ≡ running cr.session_manager.current_session
  unfolding start_new_session set_state
  start_new_session-phase now cr v =
      phase_of_session (get_current_session_state cr.session_manager)
        cr.session_manager.current_session (current_IsSession cr.session_manager v)

  start_idle-phase :
      (now : Time) (cr : ClockRunner Store)
      → Schedule.IsValid cr.session_manager
      → phase (start_idle r now cr) ≡ running 0
  unfolding start_idle reset_sessions run_save_state
  start_idle-phase now cr v =
      start_new_session-phase now
        (record cr { session_manager = reset_sessions cr.session_manager })
        (reset_sessions-IsValid cr.session_manager v)

  start_paused-phase :
      (now : Time) (cr : ClockRunner Store)
      → Schedule.IsValid cr.session_manager
      → phase (start_paused r now cr) ≡ running cr.session_manager.current_session
  unfolding start_paused set_state run_save_state
  start_paused-phase now cr v =
      phase_of_session (get_current_session_state cr.session_manager)
        cr.session_manager.current_session (current_IsSession cr.session_manager v)

  pub start-refines :
      (s : ClockState) (now : Time) (cr : ClockRunner Store)
      → cr.state_manager.state ≡ s
      → IsCoherent cr
      → outcome (start r now cr)
        ≡ contract
            (length cr.session_manager.schedule)
            start_op
            (phase_of s cr.session_manager.current_session)
  unfolding start can_start is_idle is_paused
  start-refines idle now cr e h = simp e (ap some (start_idle-phase now cr h.sessions))
  start-refines paused now cr e h = simp e (ap some (start_paused-phase now cr h.sessions))
  start-refines working now cr e h = simp e
  start-refines short_break now cr e h = simp e
  start-refines long_break now cr e h = simp e
  start-refines (other t) now cr e h = absurd (not_other cr h t e)

  pub pause-refines :
      (s : ClockState) (now : Time) (cr : ClockRunner Store)
      → cr.state_manager.state ≡ s
      → IsCoherent cr
      → outcome (pause r now cr)
        ≡ contract
            (length cr.session_manager.schedule)
            pause_op
            (phase_of s cr.session_manager.current_session)
  unfolding pause can_pause set_state
  pause-refines idle now cr e h = simp e
  pause-refines paused now cr e h = simp e
  pause-refines working now cr e h = simp e
  pause-refines short_break now cr e h = simp e
  pause-refines long_break now cr e h = simp e
  pause-refines (other t) now cr e h = absurd (not_other cr h t e)

  pub stop-refines :
      (s : ClockState) (now : Time) (cr : ClockRunner Store)
      → cr.state_manager.state ≡ s
      → IsCoherent cr
      → outcome (stop r now cr)
        ≡ contract
            (length cr.session_manager.schedule)
            stop_op
            (phase_of s cr.session_manager.current_session)
  unfolding stop can_stop set_state stop_save_state reset_sessions
  stop-refines idle now cr e h = simp e
  stop-refines paused now cr e h = simp e
  stop-refines working now cr e h = simp e
  stop-refines short_break now cr e h = simp e
  stop-refines long_break now cr e h = simp e
  stop-refines (other t) now cr e h = absurd (not_other cr h t e)

  -- Behind `NextSession` the clock runs in the session after the current one, round the schedule.
  skip_next-phase :
      (now : Time) (cr : ClockRunner Store)
      → Schedule.IsValid cr.session_manager
      → phase (skip_next r now cr)
        ≡ running ((cr.session_manager.current_session + 1) % length cr.session_manager.schedule)
  unfolding skip_next
  skip_next-phase now cr v =
      let moved = record cr { session_manager = (next_session cr.session_manager).0 } in
      simp (next_session_more cr.session_manager) (
        start_new_session-phase now moved (next_session-IsValid cr.session_manager v)
        ∙ ap running (next_session_mod cr.session_manager v))

  pub skip-refines :
      (s : ClockState) (now : Time) (cr : ClockRunner Store)
      → cr.state_manager.state ≡ s
      → IsCoherent cr
      → outcome (skip r now cr)
        ≡ contract
            (length cr.session_manager.schedule)
            skip_op
            (phase_of s cr.session_manager.current_session)
  unfolding skip can_skip
  skip-refines idle now cr e h = simp e
  skip-refines paused now cr e h = simp e (ap some (skip_next-phase now _ h.sessions))
  skip-refines working now cr e h = simp e (ap some (skip_next-phase now _ h.sessions))
  skip-refines short_break now cr e h = simp e (ap some (skip_next-phase now _ h.sessions))
  skip-refines long_break now cr e h = simp e (ap some (skip_next-phase now _ h.sessions))
  skip-refines (other t) now cr e h = absurd (not_other cr h t e)

  -- Either callback of a completed session leads to the next one.
  pub run_completion-phase :
      (c : Completion) (now : Time) (done : ClockState) (cr : ClockRunner Store)
      → Schedule.IsValid cr.session_manager
      → phase (run_completion r now (some c) done cr)
        ≡ running ((cr.session_manager.current_session + 1) % length cr.session_manager.schedule)
  unfolding run_completion on_complete on_resumed_complete
  run_completion-phase (new_session d) now done cr v = simp (next_session_more cr.session_manager) (
      start_new_session-phase now
        (record cr { session_manager = (next_session cr.session_manager).0 })
        (next_session-IsValid cr.session_manager v)
      ∙ ap running (next_session_mod cr.session_manager v))
  run_completion-phase resumed_session now done cr v = simp (next_session_more cr.session_manager) (
      start_new_session-phase now
        (record cr { session_manager = (next_session cr.session_manager).0 })
        (next_session-IsValid cr.session_manager v)
      ∙ ap running (next_session_mod cr.session_manager v))
