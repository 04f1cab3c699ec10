-- ===== src/Clock/Runner/Invariant.antt =====
-- internal/clock/clock_runner.go: what holds of the clock between two calls.
use pomodoro_backend.Base.{◌≡◌, refl, true, false, ◌⊎◌, Option, none, some, arith}
use pomodoro_backend.Clock.Time.{Time, Duration}
use pomodoro_backend.Clock.State.{
  ClockState, idle, paused, new_state_manager, set_state, can_start, can_pause, is_idle, is_paused,
}
use pomodoro_backend.Clock.Session.{
  SessionManager, next_session, reset_sessions, get_current_session_state,
}
use pomodoro_backend.Clock.Session.Schedule as Schedule
use pomodoro_backend.Clock.Session.Schedule.{
  new_session_manager-IsValid, next_session-IsValid, reset_sessions-IsValid, current_IsSession,
}
use pomodoro_backend.Clock.Timer.{
  Completion, new_session, resumed_session, has_timer, new_timer_manager, start_timer, stop_timer,
  pause_timer, resume_timer, complete_begin, complete_end,
}
use pomodoro_backend.Clock.Timer.Coherent.{
  IsSettled, new_timer_manager-IsSettled, pause_timer-IsSettled, resume_timer-IsSettled,
}
use pomodoro_backend.Clock.Redis.{Redis}
use pomodoro_backend.Clock.Runner.{ClockRunner, new_clock_runner, stop_save_state, run_save_state}
use pomodoro_backend.Clock.Runner.Control.{
  start_idle, start_paused, start_new_session, start, pause, stop, skip, on_complete,
  on_resumed_complete, run_completion, begin_completion, end_completion, complete,
}
use pomodoro_backend.Clock.Runner.Phases.{
  Op, start_op, pause_op, stop_op, skip_op, complete_op, run_op,
}

-- The schedule is valid, the timer is settled, the state is idle, paused or that of the current
-- session, a timer runs only in the state of the current session, and outside of the idle state it
-- is one for the current session.
pub record IsCoherent {Store : Type 0} (cr : ClockRunner Store) : Type 0 where
  pub sessions : Schedule.IsValid cr.session_manager
  pub settled : IsSettled cr.timer_manager
  pub state :
      (cr.state_manager.state ≡ idle)
      ⊎ (cr.state_manager.state ≡ paused)
      ⊎ (cr.state_manager.state ≡ get_current_session_state cr.session_manager)
  pub timed :
      (has_timer cr.timer_manager.timer ≡ false)
      ⊎ (cr.state_manager.state ≡ get_current_session_state cr.session_manager)
  pub named :
      (cr.state_manager.state ≡ idle)
      ⊎ (cr.timer_manager.current_state ≡ get_current_session_state cr.session_manager)

pub new_clock_runner-IsCoherent :
    {Store : Type 0} (s : Option Store) → IsCoherent (new_clock_runner s)
unfolding new_clock_runner new_timer_manager new_state_manager
new_clock_runner-IsCoherent s =
    ground (arith, new_session_manager-IsValid, new_timer_manager-IsSettled)

pub next_session_more : (sm : SessionManager) → (next_session sm).1 ≡ true
unfolding next_session
next_session_more sm = refl

module _ (r : Redis) where
  open r use {Store}

  -- A new session is coherent, whatever the state and the timer were.
  start_new_session-IsCoherent :
      (now : Time) (cr : ClockRunner Store)
      → Schedule.IsValid cr.session_manager
      → IsCoherent (start_new_session r now cr)
  unfolding start_new_session set_state start_timer
  start_new_session-IsCoherent now cr v = ground arith

  start_paused-IsCoherent :
      (now : Time) (cr : ClockRunner Store)
      → IsCoherent cr
      → cr.state_manager.state ≡ paused
      → IsCoherent (start_paused r now cr)
  unfolding start_paused set_state run_save_state resume_timer
  start_paused-IsCoherent now cr h p =
      ground (arith, resume_timer-IsSettled now cr.timer_manager h.settled)

  start_idle-IsCoherent :
      (now : Time) (cr : ClockRunner Store) → IsCoherent cr → IsCoherent (start_idle r now cr)
  unfolding start_idle run_save_state
  start_idle-IsCoherent now cr h =
      let ready : ClockRunner Store = record cr {
        session_manager = reset_sessions cr.session_manager;
      } in
      let v = reset_sessions-IsValid cr.session_manager h.sessions in
      ground (arith, start_new_session-IsCoherent now ready v)

  start-IsCoherent :
      (now : Time) (cr : ClockRunner Store) → IsCoherent cr → IsCoherent (start r now cr).0
  unfolding start can_start is_idle is_paused
  start-IsCoherent now cr h =
      ground (arith, start_idle-IsCoherent now cr h, start_paused-IsCoherent now cr h)

  pause-IsCoherent :
      (now : Time) (cr : ClockRunner Store) → IsCoherent cr → IsCoherent (pause r now cr).0
  unfolding pause set_state pause_timer can_pause
  pause-IsCoherent now cr h = ground (arith, pause_timer-IsSettled now cr.timer_manager h.settled)

  stop-IsCoherent :
      (now : Time) (cr : ClockRunner Store) → IsCoherent cr → IsCoherent (stop r now cr).0
  unfolding stop set_state stop_timer stop_save_state
  stop-IsCoherent now cr h = ground (arith, reset_sessions-IsValid cr.session_manager h.sessions)

  skip-IsCoherent :
      (now : Time) (cr : ClockRunner Store) → IsCoherent cr → IsCoherent (skip r now cr).0
  unfolding skip set_state start_timer
  skip-IsCoherent now cr h = ground (
    arith,
    next_session-IsValid cr.session_manager h.sessions,
    next_session_more cr.session_manager,
  )

  -- What a completion does once its callback is chosen: the timer is the one just started, or none.
  pub on_complete-IsCoherent :
      (now : Time) (done : ClockState) (d : Duration) (cr : ClockRunner Store)
      → Schedule.IsValid cr.session_manager
      → IsCoherent (end_completion (on_complete r now done d cr))
  unfolding on_complete end_completion complete_end set_state start_timer
  on_complete-IsCoherent now done d cr v =
      ground
        (arith, next_session-IsValid cr.session_manager v, next_session_more cr.session_manager)

  pub on_resumed_complete-IsCoherent :
      (now : Time) (done : ClockState) (cr : ClockRunner Store)
      → Schedule.IsValid cr.session_manager
      → IsCoherent (end_completion (on_resumed_complete r now done cr))
  unfolding on_resumed_complete end_completion complete_end set_state start_timer
  on_resumed_complete-IsCoherent now done cr v =
      ground
        (arith, next_session-IsValid cr.session_manager v, next_session_more cr.session_manager)

  completion-IsCoherent :
      (o : Option Completion) (now : Time) (done : ClockState) (cr : ClockRunner Store)
      → IsCoherent cr
      → IsCoherent (end_completion (run_completion r now o done (begin_completion cr)))
  unfolding run_completion begin_completion complete_begin end_completion complete_end
  completion-IsCoherent none now done cr h = ground arith
  completion-IsCoherent (some (new_session d)) now done cr h =
      on_complete-IsCoherent now done d
        (record cr { timer_manager = complete_begin cr.timer_manager }) h.sessions
  completion-IsCoherent (some resumed_session) now done cr h =
      on_resumed_complete-IsCoherent now done
        (record cr { timer_manager = complete_begin cr.timer_manager }) h.sessions

  complete-IsCoherent :
      (now : Time) (cr : ClockRunner Store) → IsCoherent cr → IsCoherent (complete r now cr)
  unfolding complete
  complete-IsCoherent now cr h =
      completion-IsCoherent cr.timer_manager.on_complete now cr.timer_manager.current_state cr h

  -- Every method of the user and every completed session keeps the clock coherent, whether or not
  -- it returns an error.
  pub run_op-IsCoherent :
      (op : Op) (now : Time) (cr : ClockRunner Store)
      → IsCoherent cr
      → IsCoherent (run_op r op now cr).0
  unfolding run_op
  run_op-IsCoherent start_op now cr h = start-IsCoherent now cr h
  run_op-IsCoherent pause_op now cr h = pause-IsCoherent now cr h
  run_op-IsCoherent stop_op now cr h = stop-IsCoherent now cr h
  run_op-IsCoherent skip_op now cr h = skip-IsCoherent now cr h
  run_op-IsCoherent complete_op now cr h = ground (arith, complete-IsCoherent now cr h)
