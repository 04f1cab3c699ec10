-- ===== src/Clock/Resume/Restore.antt =====
-- internal/clock/resume_manager.go: which loaded states are restored, and which are given up.
use pomodoro_backend.Base.{
  ℕ, ◌-◌, ◌≤◌, ◌<◌, ◌≡◌, ◌∙◌, ap, true, false, ◌&&◌, ◌⊎◌, none, some, arith, pos, length,
  half_range, ◌<ℤ◌,
}
use pomodoro_backend.Clock.Time.{Time, time_add}
use pomodoro_backend.Clock.State.{ClockState, idle, paused, is_session_state, is_running, set_state}
use pomodoro_backend.Clock.Session.{SessionManager, reset_sessions, set_current_session}
use pomodoro_backend.Clock.Timer.{
  TimerManager, has_timer, timer_is_running, start_timer, stop_timer, pause_timer,
  get_time_remaining, resumed_session,
}
use pomodoro_backend.Clock.Timer.Countdown.{time_sub_near, time_forth, start_timer-countdown}
use pomodoro_backend.Clock.Redis.{Redis, SystemState}
use pomodoro_backend.Clock.Runner.{ClockRunner, run_save_state}
use pomodoro_backend.Clock.Runner.Control.{synchronize}
use pomodoro_backend.Clock.Resume.{
  validate_system_state, resume_loaded, resume_paused_session, reset_to_idle,
  resume_running_session, resume_valid_state, resume_based_on_state, or_reset,
}

-- The clock rests at the start of its schedule.
pub record IsReset {Store : Type 0} (cr : ClockRunner Store) : Type 0 where
  pub at_rest : cr.state_manager.state ≡ idle
  pub at_start : cr.session_manager.current_session ≡ 0
  pub no_timer : has_timer cr.timer_manager.timer ≡ false

-- A clock that was just made.
pub record IsFresh {Store : Type 0} (cr : ClockRunner Store) : Type 0 where
  pub at_rest : cr.state_manager.state ≡ idle
  pub no_timer : has_timer cr.timer_manager.timer ≡ false

-- A valid state of a session.
pub record IsSessionState (total : ℕ) (s : SystemState) (k : ℕ) : Type 0 where
  pub at : s.current_session ≡ pos k
  pub inside : k < total
  pub session : is_session_state s.state ≡ true
  pub flags : (s.is_running && s.is_paused) ≡ false

-- The clock runs in session k of the state, and its timer is due at the end time of the state.
pub record IsRunningAs (now : Time) (s : SystemState) (k : ℕ) {Store : Type 0}
    (cr : ClockRunner Store) : Type 0 where
  pub state : cr.state_manager.state ≡ s.state
  pub position : cr.session_manager.current_session ≡ k
  pub due : cr.timer_manager.timer ≡ some s.end_time
  pub named : cr.timer_manager.current_state ≡ s.state
  pub left : get_time_remaining now cr.timer_manager ≡ pos (s.end_time - now)
  pub saving : cr.saver ≡ true

-- The clock is paused in session k of the state, with the time left until its end time.
pub record IsHeldAs (now : Time) (s : SystemState) (k : ℕ) {Store : Type 0} (cr : ClockRunner Store)
    : Type 0 where
  pub state : cr.state_manager.state ≡ paused
  pub position : cr.session_manager.current_session ≡ k
  pub no_timer : cr.timer_manager.timer ≡ none
  pub left : cr.timer_manager.time_remaining ≡ pos (s.end_time - now)
  pub named : cr.timer_manager.current_state ≡ s.state
  pub saving : cr.saver ≡ true

module _ {Store : Type 0} where
  pub synchronize_fresh : (cr : ClockRunner Store) → IsFresh cr → synchronize cr ≡ cr
  unfolding synchronize is_running timer_is_running
  synchronize_fresh cr f = ground arith

module _ (r : Redis) where
  open r use {Store}

  pub reset_to_idle-IsReset :
      (now : Time) (cr : ClockRunner Store) → IsReset (reset_to_idle r now cr)
  unfolding reset_to_idle set_state reset_sessions stop_timer
  reset_to_idle-IsReset now cr = ground arith

  -- A state whose end time has passed is given up: the clock rests.
  resume_loaded_expired :
      (checked now : Time) (s : SystemState) (cr : ClockRunner Store)
      → s.end_time < checked
      → IsReset (resume_loaded r checked now s cr)
  unfolding resume_loaded
  resume_loaded_expired checked now s cr late = ground (arith, reset_to_idle-IsReset now cr)

  resume_valid_paused :
      (now : Time) (s : SystemState) (cr : ClockRunner Store)
      → s.state ≡ paused
      → resume_valid_state r now s cr ≡ (reset_to_idle r now cr, none)
  unfolding resume_valid_state
  resume_valid_paused now s cr e = ground arith

  resume_based_paused :
      (now : Time) (s : SystemState) (cr : ClockRunner Store)
      → s.state ≡ paused
      → resume_based_on_state r now s cr ≡ (reset_to_idle r now (synchronize cr), none)
  unfolding resume_based_on_state
  resume_based_paused now s cr e = ground (arith, resume_valid_paused now s (synchronize cr) e)

  -- A state that was stored as paused is given up as well, whatever its flags, its end time and
  -- its time remaining: the clock rests at the start of its schedule.
  pub resume_loaded_paused_state :
      (checked now : Time) (s : SystemState) (cr : ClockRunner Store)
      → s.state ≡ paused
      → IsReset (resume_loaded r checked now s cr)
  unfolding resume_loaded
  resume_loaded_paused_state checked now s cr e = ground (
    arith,
    reset_to_idle-IsReset now cr,
    reset_to_idle-IsReset now (synchronize cr),
    resume_based_paused now s cr e,
  )

  valid_session :
      (total k : ℕ) (s : SystemState)
      → IsSessionState total s k
      → validate_system_state total s ≡ none
  unfolding validate_system_state
  valid_session total k s h = ground arith

  set_position :
      (k : ℕ) (s : SystemState) (sm : SessionManager)
      → IsSessionState (length sm.schedule) s k
      → (set_current_session s.current_session sm).current_session ≡ k
  unfolding set_current_session
  set_position k s sm h = ground arith

  due_at_end : (now end : Time) → now < end → time_add now (pos (end - now)) ≡ end
  due_at_end now end h = time_forth now (end - now) ∙ omega arith

  reading_at_start :
      (now : Time) (d : ℕ) (state : ClockState) (tm : TimerManager)
      → d < half_range
      → get_time_remaining now (start_timer now (pos d) state resumed_session tm) ≡ pos d
  reading_at_start now d state tm fits =
      (start_timer-countdown now d state resumed_session tm fits now (omega arith) (omega arith)).0
      ∙ ap pos (omega arith)

  resume_running_session_lem :
      (now : Time) (s : SystemState) (k : ℕ) (cr : ClockRunner Store)
      → IsSessionState (length cr.session_manager.schedule) s k
      → now < s.end_time
      → s.end_time - now < half_range
      → IsRunningAs now s k (resume_running_session r now s cr).0
        × ((resume_running_session r now s cr).1 ≡ none)
  unfolding resume_running_session start_timer run_save_state set_state
  resume_running_session_lem now s k cr h future near =
      let left = time_sub_near now s.end_time (omega arith) near in
      let d = s.end_time - now in
      ground (
        arith,
        left,
        set_position k s cr.session_manager h,
        due_at_end now s.end_time future,
        reading_at_start now d s.state cr.timer_manager near,
      )

  resume_paused_session_lem :
      (now : Time) (s : SystemState) (k : ℕ) (cr : ClockRunner Store)
      → IsSessionState (length cr.session_manager.schedule) s k
      → now < s.end_time
      → s.end_time - now < half_range
      → IsHeldAs now s k (resume_paused_session now s cr).0
        × ((resume_paused_session now s cr).1 ≡ none)
  unfolding resume_paused_session start_timer pause_timer run_save_state set_state
  resume_paused_session_lem now s k cr h future near =
      let left = time_sub_near now s.end_time (omega arith) near in
      let d = s.end_time - now in
      ground (
        arith,
        left,
        set_position k s cr.session_manager h,
        reading_at_start now d s.state cr.timer_manager near,
      )

  -- For a fresh clock the resume of a valid session goes by its flags alone.
  resume_loaded_session :
      (checked now : Time) (s : SystemState) (k : ℕ) (cr : ClockRunner Store)
      → IsFresh cr
      → IsSessionState (length cr.session_manager.schedule) s k
      → checked ≤ s.end_time
      → resume_loaded r checked now s cr ≡ or_reset r now (resume_valid_state r now s cr)
  unfolding resume_loaded resume_based_on_state
  resume_loaded_session checked now s k cr f h future =
      ground
        (arith, synchronize_fresh cr f, valid_session (length cr.session_manager.schedule) k s h)

  -- A state of session k that has not ended, is not paused, and is running or has time remaining,
  -- makes a fresh clock run in that session, with its timer due at the end time of the state and
  -- the periodic save on. The session lies inside the schedule, and the end time less than 2 ^ 63
  -- nanoseconds ahead.
  pub resume_loaded_running :
      (checked now : Time) (s : SystemState) (k : ℕ) (cr : ClockRunner Store)
      → IsFresh cr
      → IsSessionState (length cr.session_manager.schedule) s k
      → s.is_paused ≡ false
      → (s.is_running ≡ true) ⊎ (pos 0 <ℤ s.time_remaining)
      → checked ≤ s.end_time
      → now < s.end_time
      → s.end_time - now < half_range
      → IsRunningAs now s k (resume_loaded r checked now s cr)
  unfolding resume_valid_state
  resume_loaded_running checked now s k cr f h flag runs limit future near =
      let (restored, fine) = resume_running_session_lem now s k cr h future near in
      rw (resume_loaded_session checked now s k cr f h limit) (ground arith)

  -- A state of session k that has not ended and is flagged as paused makes a fresh clock paused in
  -- that session, with the time left until the end time. The session lies inside the schedule, and
  -- the end time less than 2 ^ 63 nanoseconds ahead.
  resume_loaded_held :
      (checked now : Time) (s : SystemState) (k : ℕ) (cr : ClockRunner Store)
      → IsFresh cr
      → IsSessionState (length cr.session_manager.schedule) s k
      → s.is_paused ≡ true
      → checked ≤ s.end_time
      → now < s.end_time
      → s.end_time - now < half_range
      → IsHeldAs now s k (resume_loaded r checked now s cr)
  unfolding resume_valid_state
  resume_loaded_held checked now s k cr f h flag limit future near =
      let (restored, fine) = resume_paused_session_lem now s k cr h future near in
      rw (resume_loaded_session checked now s k cr f h limit) (ground arith)
