-- ===== src/Server/Startup/Serving.antt =====
-- cmd/main.go: when the server gets as far as serving, and with what clock.
use pomodoro_backend.Base.{
  String, ◌≡◌, ◌≢◌, ◌↔◌, ◌∙◌, ◌⊎◌, inl, inr, Option, Option-cases, none, some, List, [], length,
  arith, pos, ◌≤ℤ◌,
}
use pomodoro_backend.Clock.Time.{Time}
use pomodoro_backend.Clock.Session.{new_session_manager, set_durations}
use pomodoro_backend.Clock.Session.Schedule.{IsSchedule}
use pomodoro_backend.Clock.Redis.{Redis, SystemState, load_system_state}
use pomodoro_backend.Clock.Runner.{ClockRunner, new_clock_runner}
use pomodoro_backend.Clock.Runner.Persist.{set_clock_durations, load_settings_from_redis}
use pomodoro_backend.Clock.Runner.Control.{synchronize}
use pomodoro_backend.Clock.Resume.{
  validate_system_state, reset_to_idle, resume_based_on_state, resume_loaded, resume_from_redis,
  new_clock_runner_with_redis,
}
use pomodoro_backend.Clock.Resume.Robust.{
  IsSafe, new_clock_runner-IsSafe, new_clock_runner_with_redis-IsSafe,
}
use pomodoro_backend.Clock.Resume.Restore.{IsReset, reset_to_idle-IsReset}
use pomodoro_backend.Server.Connect.{Postgres, connect_to_db}
use pomodoro_backend.Server.Connect.Attempts.{connect_to_db_ends}
use pomodoro_backend.Server.Settings.{PomodoroSetting, default_pomodoro_setting}
use pomodoro_backend.Server.Startup.{Event, elapse, app_init, make_clock, start_server}
use pomodoro_backend.Server.Startup.Waiting.{elapse-IsSafe, elapse-IsReset}
use pomodoro_backend.Server.Startup.Clocks.{
  IsInitialised, app_init_lem, app_init-IsInitialised, app_init-IsValid,
}

module _ (r : Redis) where
  open r use {Store}

  make_clock-IsSafe :
      (fetched checked now : Time) (redis : Option Store)
      → IsSafe (make_clock r fetched checked now redis)
  unfolding make_clock
  make_clock-IsSafe fetched checked now none = new_clock_runner-IsSafe none
  make_clock-IsSafe fetched checked now (some db) =
      new_clock_runner_with_redis-IsSafe r fetched checked now db

  app_init-IsSafe :
      (s : PomodoroSetting) (cr cr' : ClockRunner Store)
      → IsSafe cr
      → IsInitialised r s cr cr'
      → IsSafe cr'
  app_init-IsSafe s cr cr' h done = record {
    sessions = app_init-IsValid r s cr cr' done;
    settled = rw done.timer h.settled;
    quiet = rw (done.timer, done.state) h.quiet;
  }

  module _ (pg : Postgres) (env : String → String) (fetched checked now : Time)
      (events : List Event) (redis : Option Store) where
    abbrev before_init : ClockRunner Store
    before_init = elapse r events (make_clock r fetched checked now redis)

    -- What the server runs with, once it runs.
    pub start_server_reached :
        (cr' : ClockRunner Store)
        → start_server r pg env fetched checked now events redis ≡ some cr'
        → (s : PomodoroSetting) × (default_pomodoro_setting env ≡ some s)
          × IsInitialised r s before_init cr'
    unfolding start_server
    start_server_reached cr' h = elim (Option-cases (connect_to_db pg)) [
      | inl c ↦ ground arith
      | inr (none, c) ↦ ground arith
      | inr (some pool, c) ↦ elim (Option-cases (default_pomodoro_setting env)) [
        | inl d ↦ ground arith
        | inr (s, d) ↦
            let ends : app_init r s before_init ≡ some cr' = ground arith in
            (s, d, app_init-IsInitialised r s before_init cr' ends)
      ]
    ]

    -- The clock of a server that serves has the schedule of the environment, a position inside it,
    -- and a timer that runs only in a state of a session, whatever Redis held and whichever of its
    -- calls failed.
    pub start_server-IsSafe :
        (cr' : ClockRunner Store)
        → start_server r pg env fetched checked now events redis ≡ some cr'
        → IsSafe cr'
          × ((s : PomodoroSetting) × (default_pomodoro_setting env ≡ some s)
              × (cr'.session_manager.schedule ≡ s.scheduling))
    start_server-IsSafe cr' h =
        let (s, read, done) = start_server_reached cr' h in
        (
          app_init-IsSafe s before_init cr'
              (elapse-IsSafe r events (make_clock r fetched checked now redis)
                (make_clock-IsSafe fetched checked now redis))
              done,
          (s, read, done.schedule),
        )

    abbrev Stops : Type 0
    Stops =
        (connect_to_db pg ≡ some none)
        ⊎ (default_pomodoro_setting env ≡ none)
        ⊎ ((s : PomodoroSetting) × (default_pomodoro_setting env ≡ some s)
            × ¬ (IsSchedule s.scheduling × (s.scheduling ≢ [])))

    start_server_stops : start_server r pg env fetched checked now events redis ≡ none → Stops
    unfolding start_server
    start_server_stops h =
        let (res, run, out) = connect_to_db_ends pg in
        elim (Option-cases res) [
          | inl c ↦ inl (cc (run, c))
          | inr (pool, c) ↦ elim (Option-cases (default_pomodoro_setting env)) [
            | inl d ↦ inr (inl d)
            | inr (s, d) ↦ elim (app_init_lem r s before_init) [
              | inl (bad, e) ↦ inr (inr (s, d, bad))
              | inr (made, e, done) ↦ ground arith
            ]
          ]
        ]

    start_server_stopped : Stops → start_server r pg env fetched checked now events redis ≡ none
    unfolding start_server
    start_server_stopped (inl c) = ground arith
    start_server_stopped (inr (inl d)) = ground arith
    start_server_stopped (inr (inr (s, d, bad))) = elim (app_init_lem r s before_init) [
      | inl (bad', e) ↦ ground arith
      | inr (made, e, done) ↦ absurd (bad done.accepted)
    ]

    -- The server does not get as far as serving exactly if the 11 attempts at a connection fail, or
    -- the schedule of the environment cannot be parsed, is empty, or has a state that is none of a
    -- session.
    pub start_server_iff : (start_server r pg env fetched checked now events redis ≡ none) ↔ (
        (connect_to_db pg ≡ some none)
        ⊎ (default_pomodoro_setting env ≡ none)
        ⊎ ((s : PomodoroSetting) × (default_pomodoro_setting env ≡ some s)
            × ¬ (IsSchedule s.scheduling × (s.scheduling ≢ []))))
    unfolding start_server
    start_server_iff = (start_server_stops, λ why. start_server_stopped why)

  load_settings_schedule :
      (cr : ClockRunner Store)
      → (load_settings_from_redis r cr).0.session_manager.schedule ≡ cr.session_manager.schedule
  unfolding load_settings_from_redis set_clock_durations set_durations
  load_settings_schedule cr = ground arith

  synchronize_schedule :
      (cr : ClockRunner Store)
      → (synchronize cr).session_manager.schedule ≡ cr.session_manager.schedule
  unfolding synchronize
  synchronize_schedule cr = ground arith

  -- A position that the schedule does not have is no valid state.
  resume_based_outside :
      (now : Time) (s : SystemState) (cr : ClockRunner Store)
      → pos (length cr.session_manager.schedule) ≤ℤ s.current_session
      → resume_based_on_state r now s cr ≡ (reset_to_idle r now (synchronize cr), none)
  unfolding resume_based_on_state validate_system_state
  resume_based_outside now s cr far = ground (arith, synchronize_schedule cr)

  resume_loaded_outside :
      (checked now : Time) (s : SystemState) (cr : ClockRunner Store)
      → pos (length cr.session_manager.schedule) ≤ℤ s.current_session
      → IsReset (resume_loaded r checked now s cr)
  unfolding resume_loaded
  resume_loaded_outside checked now s cr far = ground (
    arith,
    reset_to_idle-IsReset r now cr,
    reset_to_idle-IsReset r now (synchronize cr),
    resume_based_outside now s cr far,
  )

  initialised-IsReset :
      (s : PomodoroSetting) (cr cr' : ClockRunner Store)
      → IsReset cr
      → IsInitialised r s cr cr'
      → IsReset cr'
  initialised-IsReset s cr cr' h done = record {
    at_rest = rw done.state h.at_rest;
    at_start = done.position ∙ rw h.at_start (ground arith);
    no_timer = rw done.timer h.no_timer;
  }

  -- A state that was saved in the ninth session or a later one is lost by a restart, whatever the
  -- schedule of the environment: the clock rests at the start. For the state is judged by the
  -- default schedule, whose sessions are eight.
  pub start_server_forgets_late_session :
      (pg : Postgres) (env : String → String) (fetched checked now : Time) (events : List Event)
      (db db' : Store) (s : SystemState) (cr' : ClockRunner Store)
      → (load_settings_from_redis r (new_clock_runner (some db))).0.redis_persistence ≡ some db'
      → load_system_state r fetched db' ≡ some s
      → pos 8 ≤ℤ s.current_session
      → start_server r pg env fetched checked now events (some db) ≡ some cr'
      → IsReset cr'
  unfolding make_clock new_clock_runner_with_redis resume_from_redis new_clock_runner
      new_session_manager
  start_server_forgets_late_session pg env fetched checked now events db db' s cr' stored load late
        h =
      let (settings, read, done) =
        start_server_reached pg env fetched checked now events (some db) cr' h in
      let loaded = (load_settings_from_redis r (new_clock_runner (some db))).0 in
      let far : pos (length loaded.session_manager.schedule) ≤ℤ s.current_session =
        rw (load_settings_schedule (new_clock_runner (some db))) late in
      let reset = resume_loaded_outside checked now s loaded far in
      initialised-IsReset settings (elapse r events (make_clock r fetched checked now (some db)))
        cr'
        (elapse-IsReset r events (make_clock r fetched checked now (some db))
          (ground (arith, stored, load, reset)))
        done
