-- ===== src/Examples/Servers.antt =====
-- The server: its connection, its settings, and its start.
use pomodoro_backend.Base.{
  List, get_elem?, mul64, wrap64, ◌*ℤ◌, ℕ, ◌+◌, ◌*◌, ◌≤◌, ◌<◌, String, ◌≡◌, ◌≢◌, ◌↔◌, ◌⊎◌, refl,
  true, false, inl, inr, Option, none, some, [], ◌∷◌, if◌then◌else◌, ◌==◌, arith, pos, format_int,
  two_digits, split_on, scan_digits, Option-cases,
}
use text.Mathlib.Text.{◌==◌ as str_eq}
use pomodoro_backend.Clock.Time.{second, minute}
use pomodoro_backend.Clock.State.{idle, working, short_break}
use pomodoro_backend.Clock.Session.{
  set_durations, set_schedule, find_invalid, set_current_session, get_current_session_state,
}
use pomodoro_backend.Clock.Display.{format_duration}
use pomodoro_backend.Clock.Display.Minutes.{format_duration_rounds}
use pomodoro_backend.Clock.Scheduling.{format_scheduling}
use pomodoro_backend.Clock.Redis.{
  save_settings, load_system_state, load_settings, SystemState, save_system_state, state_fields,
}
use pomodoro_backend.Clock.Runner.{ClockRunner, new_clock_runner}
use pomodoro_backend.Clock.Runner.Persist.{
  stored_settings, load_settings_from_redis, set_clock_durations,
}
use pomodoro_backend.Clock.Runner.Access.{set_clock_schedule}
use pomodoro_backend.Clock.Session.Schedule.{IsSchedule}
use pomodoro_backend.Clock.Redis.Repair.{IsSound}
use pomodoro_backend.Clock.Redis.RoundTrip.{load-save_system_state}
use mathlib.Core.Path.{subst}
use pomodoro_backend.Examples.Lives.{at_work}
use pomodoro_backend.Clock.Runner.Invariant.{IsCoherent}
use pomodoro_backend.Clock.Resume.Robust.{IsSafe}
use pomodoro_backend.Clock.Resume.Restore.{IsReset}
use pomodoro_backend.Server.Connect.{Postgres, open_db, connect_loop, connect_to_db, Outcome}
use pomodoro_backend.Server.Connect.Attempts.{connect_to_db_ends}
use pomodoro_backend.Server.Settings.{PomodoroSetting, default_pomodoro_setting}
use pomodoro_backend.Server.Settings.RoundTrip.{default_pomodoro_setting-IsWritten}
use pomodoro_backend.Server.Startup.{Event, completed, ticked, saved, app_init, start_server}
use pomodoro_backend.Server.Startup.Clocks.{app_init-IsCoherent_iff}
use pomodoro_backend.Server.Startup.Serving.{
  start_server-IsSafe, start_server_iff, start_server_forgets_late_session,
}
use pomodoro_backend.Examples.Store.{memory, memory-IsRedis, empty_store}

format_duration_rounds_example :
    (m s : ℕ) × (split_on 58 (format_duration (pos (90 * second)))
      ≡ two_digits m ∷ two_digits s ∷ [])
    × (scan_digits 0 (two_digits m) ≡ some m)
    × (scan_digits 0 (two_digits s) ≡ some s)
    × (s < 60)
    × (2 * ((60 * m + s) * second) ≤ 2 * (90 * second) + second)
    × (2 * (90 * second) ≤ 2 * ((60 * m + s) * second) + second)
format_duration_rounds_example = format_duration_rounds (90 * second) (omega arith) (omega arith)

-- A database that answers at the third attempt.
abbrev pub third_time : Postgres
third_time = record {
  PoolConfig = String;
  Pool = String;
  parse_config = λ i. some "config";
  new_pool = λ i config. some "pool";
  ping = λ i pool. i == 2;
}

connect_to_db_ends_example :
    (res : Option String) × (connect_to_db third_time ≡ some res) × Outcome third_time 0 11 res
connect_to_db_ends_example = connect_to_db_ends third_time

abbrev pub two_sessions : PomodoroSetting
two_sessions = record {
  work_time_duration = pos 50;
  short_break_duration = pos 10;
  long_break_duration = pos 30;
  scheduling = working ∷ short_break ∷ [];
}

abbrev pub env_of : PomodoroSetting → String → String
env_of s name =
    if str_eq name "WORK_TIME_DURATION"
    then format_int s.work_time_duration
    else if str_eq name "SHORT_BREAK_DURATION"
    then format_int s.short_break_duration
    else if str_eq name "LONG_BREAK_DURATION"
    then format_int s.long_break_duration
    else if str_eq name "SCHEDULING"
    then format_scheduling s.scheduling
    else ""

two_sessions_read : default_pomodoro_setting (env_of two_sessions) ≡ some two_sessions
two_sessions_read =
    default_pomodoro_setting-IsWritten (env_of two_sessions) two_sessions working (short_break ∷ [])
      refl (ground arith) (ground arith) (ground arith)

connected : connect_to_db third_time ≢ some none
unfolding connect_to_db connect_loop open_db
connected e = ground arith

two_sessions-IsSchedule :
    (s : PomodoroSetting)
    → default_pomodoro_setting (env_of two_sessions) ≡ some s
    → IsSchedule s.scheduling × (s.scheduling ≢ [])
two_sessions-IsSchedule s h =
    let same : two_sessions ≡ s = ground (arith, two_sessions_read) in
    subst (λ (t : PomodoroSetting). IsSchedule t.scheduling × (t.scheduling ≢ [])) same
      (ground arith)

-- A tick and a save while the server waits for its database, and the time of a timer.
abbrev pub waited : List Event
waited = ticked 62 ∷ saved 63 ∷ completed 64 ∷ []

-- With these settings the server starts.
pub started :
    (redis : Option memory.Store)
    → (cr : ClockRunner memory.Store) × (start_server memory third_time
          (env_of two_sessions)
          59
          60
          61
          waited
          redis
        ≡ some cr)
started redis =
    elim (Option-cases
      (start_server memory third_time (env_of two_sessions) 59 60 61 waited redis)) [
        | inr res ↦ res
        | inl e ↦
            elim ((start_server_iff memory third_time (env_of two_sessions) 59 60 61 waited redis).0
              e) [
                | inl c ↦ absurd (connected c)
                | inr (inl d) ↦ absurd (ground (arith, two_sessions_read))
                | inr (inr (s, d, bad)) ↦ absurd (bad (two_sessions-IsSchedule s d))
              ]
      ]

start_server_iff_example :
    (start_server memory third_time (env_of two_sessions) 59 60 61 waited none ≡ none) ↔ (
      (connect_to_db third_time ≡ some none)
      ⊎ (default_pomodoro_setting (env_of two_sessions) ≡ none)
      ⊎ ((s : PomodoroSetting) × (default_pomodoro_setting (env_of two_sessions) ≡ some s)
          × ¬ (IsSchedule s.scheduling × (s.scheduling ≢ []))))
start_server_iff_example =
    start_server_iff memory third_time (env_of two_sessions) 59 60 61 waited none

start_server-IsSafe_example :
    IsSafe (started (some empty_store)).0
    × ((s : PomodoroSetting) × (default_pomodoro_setting (env_of two_sessions) ≡ some s)
        × ((started (some empty_store)).0.session_manager.schedule ≡ s.scheduling))
start_server-IsSafe_example =
    start_server-IsSafe memory third_time (env_of two_sessions) 59 60 61 waited (some empty_store)
      (started (some empty_store)).0 (started (some empty_store)).1

-- The tenth session of a longer schedule, saved.
abbrev tenth : SystemState
tenth = record {
  current_session = pos 9;
  end_time = 300 * second;
  timezone = "UTC";
  state = working;
  time_remaining = pos 300000;
  is_running = true;
  is_paused = false;
}

abbrev tenth_saved : memory.Store
tenth_saved = (save_system_state memory tenth empty_store).0

tenth-IsSound : IsSound tenth
tenth-IsSound = ground arith

abbrev held_by : ClockRunner memory.Store → memory.Store
held_by cr = elim cr.redis_persistence [ none ↦ empty_store | some db ↦ db ]

-- What the store holds behind the load of the settings, which saves them again.
abbrev tenth_kept : memory.Store
tenth_kept = held_by (load_settings_from_redis memory (new_clock_runner (some tenth_saved))).0

tenth_stored :
    (load_settings_from_redis memory (new_clock_runner (some tenth_saved))).0.redis_persistence
    ≡ some tenth_kept
unfolding load_settings_from_redis new_clock_runner save_system_state load_settings stored_settings
    save_settings
tenth_stored = refl

tenth_loaded : load_system_state memory 59 tenth_kept ≡ some tenth
unfolding load_settings_from_redis new_clock_runner save_system_state load_settings stored_settings
    save_settings load_system_state
tenth_loaded =
    load-save_system_state memory memory-IsRedis 59 tenth empty_store (state_fields memory tenth)
      tenth-IsSound refl refl

start_server_forgets_late_session_example : IsReset (started (some tenth_saved)).0
start_server_forgets_late_session_example =
    start_server_forgets_late_session memory third_time (env_of two_sessions) 59 60 61 waited
      tenth_saved tenth_kept tenth (started (some tenth_saved)).0 tenth_stored tenth_loaded
      (omega arith) (started (some tenth_saved)).1

-- A clock at work without Redis, and with the two sessions of the settings.
abbrev alone : ClockRunner memory.Store
alone = record at_work { redis_persistence = none }

alone-IsCoherent : IsCoherent alone
unfolding get_current_session_state
alone-IsCoherent = ground arith

abbrev alone_set : ClockRunner memory.Store
alone_set = record alone {
  session_manager = record {
    work_duration = pos (50 * minute);
    short_break_duration = pos (10 * minute);
    long_break_duration = pos (30 * minute);
    schedule = working ∷ short_break ∷ [];
    current_session = 0;
  };
}

alone_initialised : app_init memory two_sessions alone ≡ some alone_set
unfolding app_init set_clock_durations set_clock_schedule set_durations set_schedule find_invalid
    set_current_session mul64 stored_settings wrap64 ◌*ℤ◌
alone_initialised = refl

app_init-IsCoherent_iff_example : IsCoherent alone_set ↔ (
    (working ≡ idle)
    ⊎ (get_elem? two_sessions.scheduling 0
        ≡ some (get_current_session_state alone.session_manager)))
app_init-IsCoherent_iff_example =
    app_init-IsCoherent_iff memory two_sessions alone alone_set alone-IsCoherent alone_initialised
