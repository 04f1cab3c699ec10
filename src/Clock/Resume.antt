-- ===== src/Clock/Resume.antt =====
-- internal/clock/resume_manager.go, and the start of internal/clock/clock_runner.go with Redis.
pub mod Robust
pub mod Restore
pub mod Restart
use pomodoro_backend.Base.{
  ℕ, Bool, true, false, not, ◌&&◌, ◌||◌, Option, none, some, if◌then◌else◌, ℤ, pos, ltb_ℤ, leb_ℤ,
  length,
}
use pomodoro_backend.Clock.Time.{Time, Duration, before, time_sub}
use pomodoro_backend.Clock.State.{
  ClockState, idle, working, short_break, long_break, paused, other, state_eq, is_session_state,
  set_state,
}
use pomodoro_backend.Clock.Session.{
  next_session, reset_sessions, set_current_session, get_current_session_duration,
}
use pomodoro_backend.Clock.Stats.{record_session}
use pomodoro_backend.Clock.Timer.{resumed_session, start_timer, pause_timer, stop_timer}
use pomodoro_backend.Clock.Redis.{
  Redis, SystemState, is_valid_state, is_busy_idle, load_system_state,
}
use pomodoro_backend.Clock.Runner.{ClockRunner, new_clock_runner, notify_state, run_save_state}
use pomodoro_backend.Clock.Runner.Persist.{save_state, load_settings_from_redis}
use pomodoro_backend.Clock.Runner.Control.{start_new_session, synchronize}

-- The errors of `validateSystemState` and of `startTimerWithCallbacks`
pub data ResumeError : Type 0 where
  session_out_of_range unknown_state busy_idle paused_without_flag two_flags no_time : ResumeError

-- `validateSystemState`, with the number of sessions; `none` is the result nil. The state that it
-- gets is not nil.
unfoldable pub validate_system_state : ℕ → SystemState → Option ResumeError
validate_system_state total s =
    if ltb_ℤ s.current_session (pos 0) || leb_ℤ (pos total) s.current_session
    then some session_out_of_range
    else if not (is_valid_state s.state)
    then some unknown_state
    else if is_busy_idle s
    then some busy_idle
    else if state_eq s.state paused && not s.is_paused
    then some paused_without_flag
    else if s.is_running && s.is_paused
    then some two_flags
    else none

-- `shouldResetDueToTimeout`
abbrev pub is_expired : Time → SystemState → Bool
is_expired now s = before s.end_time now

module _ {Store : Type 0} where
  unfoldable pub restore_idle_state : ClockRunner Store → ClockRunner Store
  restore_idle_state cr = record cr {
    state_manager = set_state idle cr.state_manager;
    session_manager = reset_sessions cr.session_manager;
    timer_manager = stop_timer cr.timer_manager;
  }

  -- `startTimerWithCallbacks`
  unfoldable pub start_timer_with_callbacks :
      Time → Duration → ClockState → ClockRunner Store → ClockRunner Store × Option ResumeError
  start_timer_with_callbacks now left state cr =
      if leb_ℤ left (pos 0) then (cr, some no_time) else (
        record cr { timer_manager = start_timer now left state resumed_session cr.timer_manager },
        none,
      )

  -- The first lines of `resumePausedSession`: the position, and the state paused.
  abbrev held_at : SystemState → ClockRunner Store → ClockRunner Store
  held_at s cr = record cr {
    session_manager = set_current_session s.current_session cr.session_manager;
    state_manager = set_state paused cr.state_manager;
  }

  -- What `resumePausedSession` and `resumeInterruptedSession` do with a timer that is started and
  -- paused at once.
  abbrev set_up :
      Time → ClockRunner Store × Option ResumeError → ClockRunner Store × Option ResumeError
  set_up now (cr, some e) = (cr, some e)
  set_up now (cr, none) =
      (run_save_state (record cr { timer_manager = (pause_timer now cr.timer_manager).0 }), none)

  unfoldable pub resume_paused_session :
      Time → SystemState → ClockRunner Store → ClockRunner Store × Option ResumeError
  unfolding start_timer_with_callbacks
  resume_paused_session now s cr =
      let set = held_at s cr in
      let left = time_sub s.end_time now in
      if ltb_ℤ (pos 0) left
      then set_up now (start_timer_with_callbacks now left s.state set)
      else (run_save_state set, none)

  -- No part of the program calls it.
  unfoldable pub resume_interrupted_session :
      Time → SystemState → ClockRunner Store → ClockRunner Store × Option ResumeError
  unfolding start_timer_with_callbacks
  resume_interrupted_session now s cr =
      let set = held_at s cr in
      let left = time_sub s.end_time now in
      let full = get_current_session_duration set.session_manager in
      if ltb_ℤ (pos 0) left
      then set_up now (start_timer_with_callbacks now left s.state set)
      else if ltb_ℤ (pos 0) full
      then set_up now (start_timer_with_callbacks now full s.state set)
      else (run_save_state set, none)

module _ (r : Redis) where
  open r use {Store}

  -- Every function but `ResumeFromRedis` reads the clock once, at `now`. `resetToIdle` logs an error of the save.
  unfoldable pub reset_to_idle : Time → ClockRunner Store → ClockRunner Store
  unfolding restore_idle_state
  reset_to_idle now cr = save_state r now (restore_idle_state cr)

  unfoldable pub handle_completed_session :
      Time → ClockState → ClockRunner Store → ClockRunner Store
  unfolding start_new_session
  handle_completed_session now done cr =
      let duration = get_current_session_duration cr.session_manager in
      let recorded = record cr {
        stats_manager = record_session now done duration cr.stats_manager;
      } in
      let (sessions, more) = next_session recorded.session_manager in
      let moved = record recorded { session_manager = sessions } in
      let rested = record moved { state_manager = set_state idle moved.state_manager } in
      if more then start_new_session r now moved else notify_state idle rested

  -- What `resumeRunningSession` does with the timer it has started.
  abbrev keep_running :
      Time → ClockRunner Store × Option ResumeError → ClockRunner Store × Option ResumeError
  keep_running now (cr, some e) = (cr, some e)
  keep_running now (cr, none) = (save_state r now (run_save_state cr), none)

  unfoldable pub resume_running_session :
      Time → SystemState → ClockRunner Store → ClockRunner Store × Option ResumeError
  unfolding handle_completed_session start_timer_with_callbacks
  resume_running_session now s cr =
      let set = record cr {
        session_manager = set_current_session s.current_session cr.session_manager;
        state_manager = set_state s.state cr.state_manager;
      } in
      let left = time_sub s.end_time now in
      if leb_ℤ left (pos 0)
      then (handle_completed_session now s.state set, none)
      else keep_running now (start_timer_with_callbacks now left s.state set)

  unfoldable pub resume_completed_session :
      Time → SystemState → ClockRunner Store → ClockRunner Store × Option ResumeError
  unfolding handle_completed_session
  resume_completed_session now s cr =
      let set = record cr {
        session_manager = set_current_session s.current_session cr.session_manager;
      } in
      (handle_completed_session now s.state set, none)

  -- The branches of `resumeBasedOnState` for a state that is valid.
  unfoldable pub resume_valid_state :
      Time → SystemState → ClockRunner Store → ClockRunner Store × Option ResumeError
  unfolding restore_idle_state resume_paused_session resume_running_session resume_completed_session
      reset_to_idle
  resume_valid_state now s cr =
      if state_eq s.state idle
      then (restore_idle_state cr, none)
      else if is_session_state s.state
      then if s.is_paused
        then resume_paused_session now s cr
        else if s.is_running
        then resume_running_session now s cr
        else if ltb_ℤ (pos 0) s.time_remaining
        then resume_running_session now s cr
        else resume_completed_session now s cr
      else (reset_to_idle now cr, none)

  unfoldable pub resume_based_on_state :
      Time → SystemState → ClockRunner Store → ClockRunner Store × Option ResumeError
  unfolding synchronize resume_valid_state reset_to_idle
  resume_based_on_state now s cr =
      let synced = synchronize cr in
      elim (validate_system_state (length synced.session_manager.schedule) s) [
        | some e ↦ (reset_to_idle now synced, none)
        | none ↦ resume_valid_state now s synced
      ]

  -- An error of `resumeBasedOnState` is answered by a reset.
  abbrev or_reset : Time → ClockRunner Store × Option ResumeError → ClockRunner Store
  or_reset now (cr, none) = cr
  or_reset now (cr, some e) = reset_to_idle now cr

  -- `ResumeFromRedis` behind a load that succeeded.
  unfoldable pub resume_loaded :
      (checked now : Time) → SystemState → ClockRunner Store → ClockRunner Store
  unfolding resume_based_on_state reset_to_idle
  resume_loaded checked now s cr =
      if is_expired checked s
      then reset_to_idle now cr
      else or_reset now (resume_based_on_state now s cr)

  -- `ResumeFromRedis`, which reads the clock at `fetched` for the end time of a state that has
  -- none, at `checked` for the time limit, and at `now` behind that. It returns nil on every path.
  unfoldable pub resume_from_redis :
      (fetched checked now : Time) → ClockRunner Store → ClockRunner Store
  unfolding resume_loaded reset_to_idle
  resume_from_redis fetched checked now cr = elim cr.redis_persistence [
    | none ↦ reset_to_idle now cr
    | some db ↦ elim (load_system_state r fetched db) [
      | none ↦ reset_to_idle now cr
      | some s ↦ resume_loaded checked now s cr
    ]
  ]

  -- `NewClockRunnerWithRedis`, once the client answers.
  unfoldable pub new_clock_runner_with_redis :
      (fetched checked now : Time) → Store → ClockRunner Store
  unfolding resume_from_redis
  new_clock_runner_with_redis fetched checked now db =
      resume_from_redis fetched checked now
        (load_settings_from_redis r (new_clock_runner (some db))).0
