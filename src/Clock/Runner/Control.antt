-- ===== src/Clock/Runner/Control.antt =====
-- internal/clock/clock_runner.go and callbacks.go: the methods that drive the clock.
use pomodoro_backend.Base.{not, ◌&&◌, Option, none, some, if◌then◌else◌}
use pomodoro_backend.Clock.Time.{Time, Duration}
use pomodoro_backend.Clock.State.{
  ClockState, idle, paused, state_eq, get_state, set_state, is_running, is_paused, is_idle,
  can_start, can_pause, can_stop, can_skip,
}
use pomodoro_backend.Clock.Session.{
  get_current_session_state, get_current_session_duration, next_session, reset_sessions,
}
use pomodoro_backend.Clock.Stats.{record_session}
use pomodoro_backend.Clock.Timer.{
  Completion, new_session, resumed_session, start_timer, pause_timer, resume_timer, stop_timer,
  get_time_remaining, timer_is_running, complete_begin, complete_end,
}
use pomodoro_backend.Clock.Redis.{Redis}
use pomodoro_backend.Clock.Runner.{
  ClockRunner, RunnerError, not_startable, not_running, already_idle, not_skippable, notify_state,
  notify_tick, notify_complete, stop_save_state, run_save_state,
}
use pomodoro_backend.Clock.Runner.Persist.{save_state}

module _ {Store : Type 0} where
  -- `handleSessionComplete` in its three parts: the timer's lock is free during the second.
  unfoldable pub begin_completion : ClockRunner Store → ClockRunner Store
  begin_completion cr = record cr { timer_manager = complete_begin cr.timer_manager }

  unfoldable pub end_completion : ClockRunner Store → ClockRunner Store
  end_completion cr = record cr { timer_manager = complete_end cr.timer_manager }

  -- One tick of `tickerLoop`, while its ticker runs.
  unfoldable pub tick : Time → ClockRunner Store → ClockRunner Store
  tick now cr =
      if cr.timer_manager.ticker && cr.timer_manager.on_tick
      then notify_tick (get_time_remaining now cr.timer_manager) cr
      else cr

  -- `synchronizeStateTimer`: the second test is on the values read before the first.
  unfoldable pub synchronize : ClockRunner Store → ClockRunner Store
  synchronize cr =
      let state_running = is_running cr.state_manager in
      let timer_running = timer_is_running cr.timer_manager in
      let rested =
        if state_running && not timer_running && not (state_eq (get_state cr.state_manager) paused)
        then notify_state idle (record cr { state_manager = set_state idle cr.state_manager })
        else cr in
      if not state_running && timer_running
      then record rested { timer_manager = stop_timer rested.timer_manager }
      else rested

  -- `Close`, of the clock's own state.
  unfoldable pub close : ClockRunner Store → ClockRunner Store
  close cr = stop_save_state cr

module _ (r : Redis) where
  open r use {Store}

  -- Every method reads the clock once, at `now`.
  unfoldable pub start_new_session : Time → ClockRunner Store → ClockRunner Store
  start_new_session now cr =
      let state = get_current_session_state cr.session_manager in
      let duration = get_current_session_duration cr.session_manager in
      let entered = record cr {
        state_manager = set_state state cr.state_manager;
        timer_manager = start_timer now duration state (new_session duration) cr.timer_manager;
      } in
      save_state r now (notify_state state entered)

  -- The branches of `Start`
  unfoldable pub start_idle : Time → ClockRunner Store → ClockRunner Store
  unfolding start_new_session
  start_idle now cr =
      run_save_state
        (start_new_session now (record cr { session_manager = reset_sessions cr.session_manager }))

  unfoldable pub start_paused : Time → ClockRunner Store → ClockRunner Store
  start_paused now cr = run_save_state (record cr {
    state_manager = set_state (get_current_session_state cr.session_manager) cr.state_manager;
    timer_manager = resume_timer now cr.timer_manager;
  })

  unfoldable pub start : Time → ClockRunner Store → ClockRunner Store × Option RunnerError
  unfolding start_idle start_paused
  start now cr =
      if not (can_start cr.state_manager)
      then (cr, some not_startable)
      else if is_idle cr.state_manager
      then (save_state r now (start_idle now cr), none)
      else if is_paused cr.state_manager
      then (save_state r now (start_paused now cr), none)
      else (save_state r now cr, none)

  unfoldable pub pause : Time → ClockRunner Store → ClockRunner Store × Option RunnerError
  pause now cr =
      let held = record cr {
        state_manager = set_state paused cr.state_manager;
        timer_manager = (pause_timer now cr.timer_manager).0;
      } in
      if not (can_pause cr.state_manager)
      then (cr, some not_running)
      else (notify_state paused (save_state r now held), none)

  unfoldable pub stop : Time → ClockRunner Store → ClockRunner Store × Option RunnerError
  stop now cr =
      let reset = record cr {
        state_manager = set_state idle cr.state_manager;
        session_manager = reset_sessions cr.session_manager;
        timer_manager = stop_timer cr.timer_manager;
      } in
      if not (can_stop cr.state_manager)
      then (cr, some already_idle)
      else (notify_state idle (save_state r now (stop_save_state reset)), none)

  -- The branches behind a call of `NextSession`, in `Skip`, in `onComplete`, and in the callback of
  -- a resumed session: only where the clock stops do they differ.
  unfoldable pub skip_next : Time → ClockRunner Store → ClockRunner Store
  unfolding start_new_session
  skip_next now cr =
      let (sessions, more) = next_session cr.session_manager in
      let moved = record cr { session_manager = sessions } in
      let rested = record moved { state_manager = set_state idle moved.state_manager } in
      if more then start_new_session now moved else notify_state idle (save_state r now rested)

  unfoldable pub skip : Time → ClockRunner Store → ClockRunner Store × Option RunnerError
  unfolding skip_next
  skip now cr =
      let state = get_state cr.state_manager in
      let duration = get_current_session_duration cr.session_manager in
      let stopped = record cr { timer_manager = stop_timer cr.timer_manager } in
      let told = notify_complete state stopped in
      let recorded = record told {
        stats_manager = record_session now state duration told.stats_manager;
      } in
      if not (can_skip cr.state_manager)
      then (cr, some not_skippable)
      else (skip_next now recorded, none)

  -- `onComplete` of callbacks.go
  unfoldable pub on_complete : Time → ClockState → Duration → ClockRunner Store → ClockRunner Store
  unfolding start_new_session
  on_complete now done duration cr =
      let recorded = record cr {
        stats_manager = record_session now done duration cr.stats_manager;
      } in
      let told = notify_complete done recorded in
      let (sessions, more) = next_session told.session_manager in
      let moved = record told { session_manager = sessions } in
      let rested = record moved { state_manager = set_state idle moved.state_manager } in
      if more
      then save_state r now (start_new_session now moved)
      else save_state r now (notify_state idle rested)

  -- The callback that `startTimerWithCallbacks` installs.
  unfoldable pub on_resumed_complete : Time → ClockState → ClockRunner Store → ClockRunner Store
  unfolding start_new_session
  on_resumed_complete now done cr =
      let duration = get_current_session_duration cr.session_manager in
      let recorded = record cr {
        stats_manager = record_session now done duration cr.stats_manager;
      } in
      let told = notify_complete done recorded in
      let (sessions, more) = next_session told.session_manager in
      let moved = record told { session_manager = sessions } in
      let rested = record moved { state_manager = set_state idle moved.state_manager } in
      if more then start_new_session now moved else notify_state idle rested

  unfoldable pub run_completion :
      Time → Option Completion → ClockState → ClockRunner Store → ClockRunner Store
  unfolding on_complete on_resumed_complete
  run_completion now none done cr = cr
  run_completion now (some (new_session duration)) done cr = on_complete now done duration cr
  run_completion now (some resumed_session) done cr = on_resumed_complete now done cr

  -- The three parts with nothing between them.
  unfoldable pub complete : Time → ClockRunner Store → ClockRunner Store
  unfolding begin_completion end_completion run_completion
  complete now cr =
      let tm = cr.timer_manager in
      end_completion (run_completion now tm.on_complete tm.current_state (begin_completion cr))
