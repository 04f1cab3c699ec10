-- ===== src/Clock/Runner/Interleave/Methods.antt =====
-- internal/clock/clock_runner.go: what the methods keep of a clock, whatever completions are under
-- way.
use pomodoro_backend.Base.{◌≡◌, ◌≢◌, refl, true, ◌⊎◌, Option, none, some, pos, arith}
use pomodoro_backend.Clock.Time.{Time}
use pomodoro_backend.Clock.State.{
  ClockState, idle, paused, is_session_state, set_state, new_state_manager,
}
use pomodoro_backend.Clock.Session.{next_session, reset_sessions}
use pomodoro_backend.Clock.Session.Schedule as Schedule
use pomodoro_backend.Clock.Session.Schedule.{
  new_session_manager-IsValid, next_session-IsValid, reset_sessions-IsValid, current_IsSession,
}
use pomodoro_backend.Clock.Timer.{
  TimerManager, new_timer_manager, start_timer, stop_timer, pause_timer, resume_timer,
}
use pomodoro_backend.Clock.Redis.{Redis}
use pomodoro_backend.Clock.Runner.{ClockRunner, new_clock_runner, stop_save_state, run_save_state}
use pomodoro_backend.Clock.Runner.Control.{
  start_idle, start_paused, start_new_session, start, pause, stop, skip, skip_next,
}
use pomodoro_backend.Clock.Runner.Phases.{
  Op, start_op, pause_op, stop_op, skip_op, complete_op, run_op,
}
use pomodoro_backend.Clock.Runner.Invariant.{next_session_more}
use pomodoro_backend.Clock.Runner.Refine.{has_answer}

-- The state is idle, paused or that of a session.
abbrev pub IsNamedState : ClockState → Type 0
IsNamedState s = (s ≡ idle) ⊎ (s ≡ paused) ⊎ (is_session_state s ≡ true)

-- The timer has a callback and a session's state.
abbrev pub HasCallback : TimerManager → Type 0
HasCallback tm = (has_answer tm.on_complete ≡ true) × (is_session_state tm.current_state ≡ true)

-- The timer is so, or it was never set.
abbrev pub IsAnswered : TimerManager → Type 0
IsAnswered tm = HasCallback tm ⊎ ((tm.timer ≡ none) × (tm.time_remaining ≡ pos 0))

pub record IsSane {Store : Type 0} (cr : ClockRunner Store) : Type 0 where
  pub sessions : Schedule.IsValid cr.session_manager
  pub state : IsNamedState cr.state_manager.state
  pub answered : IsAnswered cr.timer_manager

module _ (r : Redis) where
  open r use {Store}

  start-IsSane : (now : Time) (cr : ClockRunner Store) → IsSane cr → IsSane (start r now cr).0
  unfolding start start_idle start_paused start_new_session set_state run_save_state stop_save_state
      start_timer resume_timer stop_timer
  start-IsSane now cr h = ground (
    arith,
    reset_sessions-IsValid cr.session_manager h.sessions,
    current_IsSession cr.session_manager h.sessions,
    current_IsSession (reset_sessions cr.session_manager)
        (reset_sessions-IsValid cr.session_manager h.sessions),
  )

  pause-IsSane : (now : Time) (cr : ClockRunner Store) → IsSane cr → IsSane (pause r now cr).0
  unfolding pause set_state pause_timer stop_timer
  pause-IsSane now cr h = ground arith

  stop-IsSane : (now : Time) (cr : ClockRunner Store) → IsSane cr → IsSane (stop r now cr).0
  unfolding stop set_state stop_timer stop_save_state
  stop-IsSane now cr h = ground (arith, reset_sessions-IsValid cr.session_manager h.sessions)

  skip-IsSane : (now : Time) (cr : ClockRunner Store) → IsSane cr → IsSane (skip r now cr).0
  unfolding skip skip_next start_new_session set_state start_timer stop_timer
  skip-IsSane now cr h = ground (
    arith,
    next_session-IsValid cr.session_manager h.sessions,
    current_IsSession (next_session cr.session_manager).0
        (next_session-IsValid cr.session_manager h.sessions),
    next_session_more cr.session_manager,
  )

  pub method-IsSane :
      (op : Op) (now : Time) (cr : ClockRunner Store)
      → op ≢ complete_op
      → IsSane cr
      → IsSane (run_op r op now cr).0
  unfolding run_op
  method-IsSane start_op now cr other h = start-IsSane now cr h
  method-IsSane pause_op now cr other h = pause-IsSane now cr h
  method-IsSane stop_op now cr other h = stop-IsSane now cr h
  method-IsSane skip_op now cr other h = skip-IsSane now cr h
  method-IsSane complete_op now cr other h = absurd (other refl)

  start-HasCallback :
      (now : Time) (cr : ClockRunner Store)
      → IsSane cr
      → HasCallback cr.timer_manager
      → HasCallback (start r now cr).0.timer_manager
  unfolding start start_idle start_paused start_new_session run_save_state stop_save_state
      start_timer resume_timer stop_timer
  start-HasCallback now cr h p = ground (
    arith,
    current_IsSession (reset_sessions cr.session_manager)
        (reset_sessions-IsValid cr.session_manager h.sessions),
  )

  pause-HasCallback :
      (now : Time) (cr : ClockRunner Store)
      → HasCallback cr.timer_manager
      → HasCallback (pause r now cr).0.timer_manager
  unfolding pause pause_timer stop_timer
  pause-HasCallback now cr p = ground arith

  stop-HasCallback :
      (now : Time) (cr : ClockRunner Store)
      → HasCallback cr.timer_manager
      → HasCallback (stop r now cr).0.timer_manager
  unfolding stop stop_timer stop_save_state
  stop-HasCallback now cr p = ground arith

  skip-HasCallback :
      (now : Time) (cr : ClockRunner Store)
      → IsSane cr
      → HasCallback cr.timer_manager
      → HasCallback (skip r now cr).0.timer_manager
  unfolding skip skip_next start_new_session start_timer stop_timer
  skip-HasCallback now cr h p = ground (
    arith,
    current_IsSession (next_session cr.session_manager).0
        (next_session-IsValid cr.session_manager h.sessions),
  )

  pub method-HasCallback :
      (op : Op) (now : Time) (cr : ClockRunner Store)
      → op ≢ complete_op
      → IsSane cr
      → HasCallback cr.timer_manager
      → HasCallback (run_op r op now cr).0.timer_manager
  unfolding run_op
  method-HasCallback start_op now cr other h p = start-HasCallback now cr h p
  method-HasCallback pause_op now cr other h p = pause-HasCallback now cr p
  method-HasCallback stop_op now cr other h p = stop-HasCallback now cr p
  method-HasCallback skip_op now cr other h p = skip-HasCallback now cr h p
  method-HasCallback complete_op now cr other h p = absurd (other refl)

  pub due-HasCallback :
      (cr : ClockRunner Store) (due : Time)
      → cr.timer_manager.timer ≡ some due
      → IsSane cr
      → HasCallback cr.timer_manager
  due-HasCallback cr due set h = ground (arith, h.answered)

  pub new_clock_runner-IsSane : (store : Option Store) → IsSane (new_clock_runner store)
  unfolding new_clock_runner new_state_manager new_timer_manager
  new_clock_runner-IsSane store = ground (arith, new_session_manager-IsValid)
