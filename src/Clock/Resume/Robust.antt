-- ===== src/Clock/Resume/Robust.antt =====
-- internal/clock/resume_manager.go: whatever Redis holds, the clock starts in a safe state.
use pomodoro_backend.Base.{
  ◌≡◌, refl, true, false, ◌⊎◌, inl, inr, Option, Option-cases, Bool-cases, none, some, arith,
}
use pomodoro_backend.Clock.Time.{Time}
use pomodoro_backend.Clock.State.{
  ClockState, is_session_state, is_running, set_state, new_state_manager,
}
use pomodoro_backend.Clock.Session.{next_session, set_current_session, set_durations}
use pomodoro_backend.Clock.Session.Schedule as Schedule
use pomodoro_backend.Clock.Session.Schedule.{
  next_session-IsValid, reset_sessions-IsValid, set_current_session-IsValid, set_durations-IsValid,
  current_IsSession, new_session_manager-IsValid,
}
use pomodoro_backend.Clock.Timer.{
  has_timer, timer_is_running, start_timer, stop_timer, pause_timer, new_timer_manager,
}
use pomodoro_backend.Clock.Timer.Coherent.{IsSettled, stop_timer-IsSettled}
use pomodoro_backend.Clock.Redis.{Redis, SystemState, load_system_state}
use pomodoro_backend.Clock.Runner.{ClockRunner, new_clock_runner, run_save_state}
use pomodoro_backend.Clock.Runner.Persist.{load_settings_from_redis}
use pomodoro_backend.Clock.Runner.Control.{start_new_session, synchronize}
use pomodoro_backend.Clock.Runner.Invariant.{next_session_more}
use pomodoro_backend.Clock.Resume.{
  ResumeError, is_expired, resume_loaded, restore_idle_state, resume_paused_session, reset_to_idle,
  handle_completed_session, resume_running_session, resume_completed_session, resume_valid_state,
  resume_based_on_state, or_reset, resume_from_redis, new_clock_runner_with_redis,
}

-- The schedule is valid and the position inside it, the timer is settled, and it runs only in a
-- state of a session.
pub record IsSafe {Store : Type 0} (cr : ClockRunner Store) : Type 0 where
  pub sessions : Schedule.IsValid cr.session_manager
  pub settled : IsSettled cr.timer_manager
  pub quiet :
      (has_timer cr.timer_manager.timer ≡ false) ⊎ (is_session_state cr.state_manager.state ≡ true)

module _ {Store : Type 0} where
  pub new_clock_runner-IsSafe : (s : Option Store) → IsSafe (new_clock_runner s)
  unfolding new_clock_runner new_timer_manager new_state_manager
  new_clock_runner-IsSafe s = ground (arith, new_session_manager-IsValid)

  restore_idle_state-IsSafe : (cr : ClockRunner Store) → IsSafe cr → IsSafe (restore_idle_state cr)
  unfolding restore_idle_state stop_timer
  restore_idle_state-IsSafe cr h =
      ground (arith, reset_sessions-IsValid cr.session_manager h.sessions)

  synchronize-IsSafe : (cr : ClockRunner Store) → IsSafe cr → IsSafe (synchronize cr)
  unfolding synchronize is_running timer_is_running set_state
  synchronize-IsSafe cr h = ground (arith, stop_timer-IsSettled cr.timer_manager)

  synchronize_off :
      (cr : ClockRunner Store)
      → has_timer cr.timer_manager.timer ≡ false
      → has_timer (synchronize cr).timer_manager.timer ≡ false
  unfolding synchronize timer_is_running stop_timer
  synchronize_off cr off = ground arith

  -- Paused, whatever the timer is started for.
  resume_paused_session-IsSafe :
      (now : Time) (s : SystemState) (cr : ClockRunner Store)
      → IsSafe cr
      → has_timer cr.timer_manager.timer ≡ false
      → IsSafe (resume_paused_session now s cr).0
  unfolding resume_paused_session start_timer pause_timer set_state run_save_state
  resume_paused_session-IsSafe now s cr h off =
      ground (arith, set_current_session-IsValid s.current_session cr.session_manager h.sessions)

module _ (r : Redis) where
  open r use {Store}

  reset_to_idle-IsSafe :
      (now : Time) (cr : ClockRunner Store) → IsSafe cr → IsSafe (reset_to_idle r now cr)
  unfolding reset_to_idle
  reset_to_idle-IsSafe now cr h = ground (arith, restore_idle_state-IsSafe cr h)

  start_new_session-IsSafe :
      (now : Time) (cr : ClockRunner Store)
      → Schedule.IsValid cr.session_manager
      → IsSafe (start_new_session r now cr)
  unfolding start_new_session set_state start_timer
  start_new_session-IsSafe now cr v = ground (arith, current_IsSession cr.session_manager v)

  handle_completed_session-IsSafe :
      (now : Time) (done : ClockState) (cr : ClockRunner Store)
      → Schedule.IsValid cr.session_manager
      → IsSafe (handle_completed_session r now done cr)
  unfolding handle_completed_session
  handle_completed_session-IsSafe now done cr v =
      let next = next_session-IsValid cr.session_manager v in
      let moved : ClockRunner Store = record cr {
        session_manager = (next_session cr.session_manager).0;
      } in
      ground (arith, start_new_session-IsSafe now moved next, next_session_more cr.session_manager)

  resume_running_session-IsSafe :
      (now : Time) (s : SystemState) (cr : ClockRunner Store)
      → IsSafe cr
      → is_session_state s.state ≡ true
      → IsSafe (resume_running_session r now s cr).0
  unfolding resume_running_session start_timer run_save_state set_state
  resume_running_session-IsSafe now s cr h session =
      let v = set_current_session-IsValid s.current_session cr.session_manager h.sessions in
      let set : ClockRunner Store = record cr {
        session_manager = set_current_session s.current_session cr.session_manager;
        state_manager = set_state s.state cr.state_manager;
      } in
      ground (arith, handle_completed_session-IsSafe now s.state set v)

  resume_completed_session-IsSafe :
      (now : Time) (s : SystemState) (cr : ClockRunner Store)
      → IsSafe cr
      → IsSafe (resume_completed_session r now s cr).0
  unfolding resume_completed_session
  resume_completed_session-IsSafe now s cr h =
      handle_completed_session-IsSafe now s.state _
        (set_current_session-IsValid s.current_session cr.session_manager h.sessions)

  resume_valid_state-IsSafe :
      (now : Time) (s : SystemState) (cr : ClockRunner Store)
      → IsSafe cr
      → has_timer cr.timer_manager.timer ≡ false
      → IsSafe (resume_valid_state r now s cr).0
  unfolding resume_valid_state
  resume_valid_state-IsSafe now s cr h off = ground (
    arith,
    restore_idle_state-IsSafe cr h,
    resume_paused_session-IsSafe now s cr h off,
    resume_running_session-IsSafe now s cr h,
    resume_completed_session-IsSafe now s cr h,
    reset_to_idle-IsSafe now cr h,
  )

  resume_based_on_state-IsSafe :
      (now : Time) (s : SystemState) (cr : ClockRunner Store)
      → IsSafe cr
      → has_timer cr.timer_manager.timer ≡ false
      → IsSafe (resume_based_on_state r now s cr).0
  unfolding resume_based_on_state
  resume_based_on_state-IsSafe now s cr h off =
      let safe = synchronize-IsSafe cr h in
      ground (
        arith,
        resume_valid_state-IsSafe now s (synchronize cr) safe (synchronize_off cr off),
        reset_to_idle-IsSafe now (synchronize cr) safe,
      )

  or_reset-IsSafe :
      (now : Time) (out : ClockRunner Store × Option ResumeError)
      → IsSafe out.0
      → IsSafe (or_reset r now out)
  or_reset-IsSafe now (cr, none) h = h
  or_reset-IsSafe now (cr, some e) h = reset_to_idle-IsSafe now cr h

  resume_loaded-IsSafe :
      (checked now : Time) (s : SystemState) (cr : ClockRunner Store)
      → IsSafe cr
      → has_timer cr.timer_manager.timer ≡ false
      → IsSafe (resume_loaded r checked now s cr)
  unfolding resume_loaded
  resume_loaded-IsSafe checked now s cr h off = elim (Bool-cases (is_expired checked s)) [
    | inl e ↦ rw e (reset_to_idle-IsSafe now cr h)
    | inr e ↦ rw e (
        or_reset-IsSafe now (resume_based_on_state r now s cr)
          (resume_based_on_state-IsSafe now s cr h off))
  ]

  resume_from_redis-IsSafe :
      (fetched checked now : Time) (cr : ClockRunner Store)
      → IsSafe cr
      → has_timer cr.timer_manager.timer ≡ false
      → IsSafe (resume_from_redis r fetched checked now cr)
  unfolding resume_from_redis
  resume_from_redis-IsSafe fetched checked now cr h off = elim (Option-cases cr.redis_persistence) [
    | inl e ↦ ground (arith, reset_to_idle-IsSafe now cr h)
    | inr (db, e) ↦ elim (Option-cases (load_system_state r fetched db)) [
      | inl f ↦ ground (arith, reset_to_idle-IsSafe now cr h)
      | inr (s, f) ↦ ground (arith, resume_loaded-IsSafe checked now s cr h off)
    ]
  ]

  load_settings_from_redis-IsSafe :
      (cr : ClockRunner Store)
      → IsSafe cr
      → has_timer cr.timer_manager.timer ≡ false
      → IsSafe (load_settings_from_redis r cr).0
        × (has_timer (load_settings_from_redis r cr).0.timer_manager.timer ≡ false)
  unfolding load_settings_from_redis set_durations
  load_settings_from_redis-IsSafe cr h off = (ground arith, ground arith)

  -- Whatever a Redis store holds and whichever of its calls fail, a clock that is made with it has
  -- a valid schedule and a position inside it, and its timer runs only in a state of a session.
  pub new_clock_runner_with_redis-IsSafe :
      (fetched checked now : Time) (db : Store)
      → IsSafe (new_clock_runner_with_redis r fetched checked now db)
  unfolding new_clock_runner_with_redis
  new_clock_runner_with_redis-IsSafe fetched checked now db =
      let (safe, off) =
        load_settings_from_redis-IsSafe (new_clock_runner (some db))
          (new_clock_runner-IsSafe (some db)) (unfold new_clock_runner new_timer_manager in refl) in
      resume_from_redis-IsSafe fetched checked now
        (load_settings_from_redis r (new_clock_runner (some db))).0 safe off
