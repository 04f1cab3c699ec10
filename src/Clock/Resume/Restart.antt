-- ===== src/Clock/Resume/Restart.antt =====
-- internal/clock: what becomes of a clock over a restart of the server, from the saving of its
-- state (persistence_manager.go) through Redis (redis_persistence.go) to the resume
-- (resume_manager.go).
use pomodoro_backend.Base.{
  ℕ, ◌+◌, ◌-◌, ◌/◌, ◌≤◌, ◌<◌, ◌≡◌, ap, refl, true, false, inl, some, arith, pos, negsuc, ◌≤ℤ◌,
  length, half_range, IsInt64, div64, wrap64_id,
}
use pomodoro_backend.Clock.Time.{Time, Duration, millisecond}
use pomodoro_backend.Clock.State.{ClockState, paused, is_session_state, is_running, is_paused}
use pomodoro_backend.Clock.Timer.{has_timer, timer_is_running, get_time_remaining}
use pomodoro_backend.Clock.Timer.Countdown.{time_forth}
use pomodoro_backend.Clock.Redis.{
  Redis, IsRedis, Fields, SystemState, is_valid_state, save_system_state, load_system_state,
}
use pomodoro_backend.Clock.Redis.Repair.{IsSound}
use pomodoro_backend.Clock.Redis.RoundTrip.{whole_second, load-save_system_state}
use pomodoro_backend.Clock.Runner.{ClockRunner}
use pomodoro_backend.Clock.Runner.Persist.{clock_is_running, system_state, saved_left}
use pomodoro_backend.Clock.Resume.{resume_from_redis, resume_loaded}
use pomodoro_backend.Clock.Resume.Restore.{
  IsFresh, IsReset, IsSessionState, IsRunningAs, resume_loaded_paused_state, resume_loaded_running,
}

saved_left_nonneg :
    (r : Redis) (s : ClockState) (left : Duration) → IsInt64 left → pos 0 ≤ℤ saved_left r s left
unfolding div64
saved_left_nonneg r s (negsuc n) fits = ground arith
saved_left_nonneg r s (pos n) fits = ground (arith, wrap64_id (pos (n / millisecond)))

module _ (r : Redis) where
  open r use {Store}

  -- What is saved of a clock in a named state is sound.
  pub system_state-IsSound :
      (t : Time) (cr : ClockRunner Store)
      → is_valid_state cr.state_manager.state ≡ true
      → cr.session_manager.current_session ≤ 100
      → IsInt64 (get_time_remaining t cr.timer_manager)
      → IsSound (system_state r t cr)
  unfolding system_state is_running is_paused clock_is_running
  system_state-IsSound t cr known small fits = ground (
    arith,
    saved_left_nonneg r cr.state_manager.state (get_time_remaining t cr.timer_manager) fits,
  )

  resume_stored :
      (fetched checked now : Time) (cr : ClockRunner Store) (db : Store) (s : SystemState)
      → cr.redis_persistence ≡ some db
      → load_system_state r fetched db ≡ some s
      → resume_from_redis r fetched checked now cr ≡ resume_loaded r checked now s cr
  unfolding resume_from_redis
  resume_stored fetched checked now cr db s e load = ground arith

  running_flags :
      (t : Time) (cr : ClockRunner Store)
      → is_session_state cr.state_manager.state ≡ true
      → has_timer cr.timer_manager.timer ≡ true
      → ((system_state r t cr).is_paused ≡ false) × ((system_state r t cr).is_running ≡ true)
  unfolding system_state is_running is_paused clock_is_running timer_is_running
  running_flags t cr session timed = ground arith

  pub running_end :
      (t : Time) (d : ℕ) (cr : ClockRunner Store)
      → is_session_state cr.state_manager.state ≡ true
      → get_time_remaining t cr.timer_manager ≡ pos d
      → 0 < d
      → (system_state r t cr).end_time ≡ t + d
  unfolding system_state
  running_end t d cr session left some_left = ground (arith, time_forth t d)

  -- The clock's state was saved at a time t in a store, without an error, and is loaded from there.
  module _ (laws : IsRedis r) (t fetched checked now : Time) (cr : ClockRunner Store) (db : Store)
      (m : Fields) (known : is_valid_state cr.state_manager.state ≡ true)
      (small : cr.session_manager.current_session ≤ 100)
      (fits : IsInt64 (get_time_remaining t cr.timer_manager))
      (saved : (save_system_state r (system_state r t cr) db).1 ≡ true)
      (read : r.hgetall (save_system_state r (system_state r t cr) db).0 "systemState" ≡ some m)
      (fresh : ClockRunner Store)
      (connected : fresh.redis_persistence
        ≡ some (save_system_state r (system_state r t cr) db).0) where
    abbrev loaded : SystemState
    loaded = record (system_state r t cr) { end_time = whole_second (system_state r t cr).end_time }

    resume_lem :
        resume_from_redis r fetched checked now fresh ≡ resume_loaded r checked now loaded fresh
    resume_lem =
        resume_stored fetched checked now fresh (save_system_state r (system_state r t cr) db).0
          loaded connected
          (load-save_system_state r laws fetched (system_state r t cr) db m
            (system_state-IsSound t cr known small fits) saved read)

    loaded_session :
        is_session_state cr.state_manager.state ≡ true
        → loaded.is_paused ≡ false
        → cr.session_manager.current_session < length fresh.session_manager.schedule
        → IsSessionState
            (length fresh.session_manager.schedule)
            loaded
            cr.session_manager.current_session
    unfolding system_state
    loaded_session session flag inside = record {
      at = refl;
      inside = inside;
      session = session;
      flags = ground arith;
    }

    -- With the documented behaviour of Redis, a paused clock does not survive a restart: what was
    -- saved of it without an error, and is loaded again, makes a clock that rests at the start of
    -- its schedule. The conditions are that the position is at most 100 and that the time left is a
    -- number of 64 bits.
    pub restart_loses_pause :
        cr.state_manager.state ≡ paused → IsReset (resume_from_redis r fetched checked now fresh)
    unfolding system_state
    restart_loses_pause e = rw resume_lem (resume_loaded_paused_state r checked now loaded fresh e)

    -- With the documented behaviour of Redis, a running clock survives a restart: what was saved of
    -- it at a time t without an error, with d nanoseconds left, and is loaded again by a fresh
    -- clock before the session is over, makes that clock run in the same session and state, with
    -- its timer due at t + d less the fraction of a second. The position is at most 100 and lies
    -- inside the schedule of the fresh clock, d is a number of 64 bits, and the end is less than 2
    -- ^ 63 nanoseconds ahead.
    pub restart_keeps_running :
        (d : ℕ)
        → is_session_state cr.state_manager.state ≡ true
        → has_timer cr.timer_manager.timer ≡ true
        → get_time_remaining t cr.timer_manager ≡ pos d
        → 0 < d
        → IsFresh fresh
        → cr.session_manager.current_session < length fresh.session_manager.schedule
        → checked ≤ whole_second (t + d)
        → now < whole_second (t + d)
        → whole_second (t + d) - now < half_range
        → IsRunningAs now loaded cr.session_manager.current_session
            (resume_from_redis r fetched checked now fresh)
          × (loaded.end_time ≡ whole_second (t + d))
          × (loaded.state ≡ cr.state_manager.state)
    restart_keeps_running d session timed left some_left f inside limit future near =
        let (flag, runs) = running_flags t cr session timed in
        let end = ap whole_second (running_end t d cr session left some_left) in
        (
          rw resume_lem (
              resume_loaded_running r checked now loaded cr.session_manager.current_session fresh f
                (loaded_session session flag inside) flag (inl runs) (omega (arith, end))
                (omega (arith, end)) (omega (arith, end))),
          end,
          unfold system_state in refl,
        )
