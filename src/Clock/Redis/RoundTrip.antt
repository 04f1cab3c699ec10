-- ===== src/Clock/Redis/RoundTrip.antt =====
-- internal/clock/redis_persistence.go: what is saved is loaded again.
use pomodoro_backend.Base.{
  ◌-◌, ◌%◌, String, ◌≡◌, refl, ap, ◌∙◌, Bool, true, false, some, [], ◌∷◌, arith,
}
use pomodoro_backend.Clock.Time.{Time, second}
use pomodoro_backend.Clock.State.{
  ClockState, idle, working, short_break, long_break, paused, other, of_string, to_string,
}
use pomodoro_backend.Clock.Redis.{
  Fields, lookup, Redis, IsRedis, PomodoroSettings, SystemState, is_valid_state,
  validate_and_repair_state, flag_of, is_empty, settings_fields, save_settings, load_settings,
  parse_settings, state_fields, save_system_state, parse_state, load_system_state,
}
use pomodoro_backend.Clock.Redis.Repair.{IsSound, validate_and_repair_state_id}

-- What RFC 3339 keeps of a time.
abbrev pub whole_second : Time → Time
whole_second t = t - t % second

nonempty : (k v : String) (m : Fields) → lookup k m ≡ some v → is_empty m ≡ false
nonempty k v [] h = cc
nonempty k v (x ∷ m) h = refl

known_text : (c : ClockState) → is_valid_state c ≡ true → of_string (to_string c) ≡ c
unfolding of_string to_string
known_text idle h = refl
known_text working h = refl
known_text short_break h = refl
known_text long_break h = refl
known_text paused h = refl
known_text (other s) h = cc

module _ (r : Redis) (laws : IsRedis r) where
  flag_text : (b : Bool) → flag_of (some (r.format_bool b)) ≡ b
  flag_text true = rw laws.format_bool_true
  flag_text false = rw laws.format_bool_false

  parse_state_fields :
      (now : Time) (s : SystemState) (m : Fields)
      → is_valid_state s.state ≡ true
      → ((k v : String) → lookup k (state_fields r s) ≡ some v → lookup k m ≡ some v)
      → parse_state r now m ≡ record s { end_time = whole_second s.end_time }
  unfolding parse_state
  parse_state_fields now s m known found = cc (
    found "currentSession" _ refl,
    found "endTime" _ refl,
    found "timezone" _ refl,
    found "state" _ refl,
    found "timeRemaining" _ refl,
    found "isRunning" _ refl,
    found "isPaused" _ refl,
    laws.scan_int-format_int s.current_session,
    laws.scan_int-format_int s.time_remaining,
    laws.parse_time-format_time s.end_time,
    known_text s.state known,
    flag_text s.is_running,
    flag_text s.is_paused,
  )

  load_of :
      (now : Time) (db : r.Store) (m : Fields)
      → r.hgetall db "systemState" ≡ some m
      → is_empty m ≡ false
      → load_system_state r now db ≡ some (validate_and_repair_state (parse_state r now m))
  unfolding load_system_state
  load_of now db m read full = rw (read, load_system_state, full)

  end_time-IsSound : (s : SystemState) (t : Time) → IsSound s → IsSound (record s { end_time = t })
  end_time-IsSound s t h = ground arith

  -- With the documented behaviour of Redis, a sound state that was saved without an error is loaded
  -- again as it was, but for the fraction of a second of its end time, by every read that succeeds.
  pub load-save_system_state :
      (now : Time) (s : SystemState) (db : r.Store) (m : Fields)
      → IsSound s
      → (save_system_state r s db).1 ≡ true
      → r.hgetall (save_system_state r s db).0 "systemState" ≡ some m
      → load_system_state r now (save_system_state r s db).0
        ≡ some (record s { end_time = whole_second s.end_time })
  unfolding save_system_state
  load-save_system_state now s db m sound ok read =
      let found : (k v : String) → lookup k (state_fields r s) ≡ some v → lookup k m ≡ some v =
        λ k v e. laws.hgetall-hset db "systemState" (state_fields r s) m k v ok read e in
      let full = nonempty "state" _ m (found "state" _ refl) in
      let kept = whole_second s.end_time in
      load_of now (save_system_state r s db).0 m read full
      ∙ ap (λ x. some (validate_and_repair_state x)) (parse_state_fields now s m sound.known found)
      ∙ ap some (
          validate_and_repair_state_id (record s { end_time = kept })
            (end_time-IsSound s kept sound))

  parse_settings_fields :
      (s : PomodoroSettings) (m : Fields)
      → ((k v : String) → lookup k (settings_fields r s) ≡ some v → lookup k m ≡ some v)
      → parse_settings r m ≡ s
  unfolding parse_settings
  parse_settings_fields s m found = cc (
    found "workTime" _ refl,
    found "shortBreakTime" _ refl,
    found "longBreakTime" _ refl,
    found "scheduling" _ refl,
    laws.scan_int-format_int s.work_time,
    laws.scan_int-format_int s.short_break_time,
    laws.scan_int-format_int s.long_break_time,
  )

  -- Settings that were saved without an error are loaded again by every read that succeeds.
  load-save_settings :
      (s : PomodoroSettings) (db : r.Store) (m : Fields)
      → (save_settings r s db).1 ≡ true
      → r.hgetall (save_settings r s db).0 "pomodoroSettings" ≡ some m
      → load_settings r (save_settings r s db).0 ≡ some s
  unfolding save_settings load_settings
  load-save_settings s db m ok read =
      let found : (k v : String) → lookup k (settings_fields r s) ≡ some v → lookup k m ≡ some v =
        λ k v e. laws.hgetall-hset db "pomodoroSettings" (settings_fields r s) m k v ok read e in
      rw (read, load_settings, nonempty "scheduling" _ m (found "scheduling" _ refl))
        (ap some (parse_settings_fields s m found))
