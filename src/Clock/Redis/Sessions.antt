-- ===== src/Clock/Redis/Sessions.antt =====
-- internal/clock/redis_persistence.go: the statistics of single sessions, which are written beside
-- the settings and the state.
use pomodoro_backend.Base.{
  ◌*◌, String, ◌≡◌, ◌≢◌, refl, Bool, true, false, [], ◌∷◌, if◌then◌else◌, ℤ, pos, append,
  has_prefix, Bool-cases, inl, inr, ap, ◌∙◌, arith,
}
use pomodoro_backend.Clock.Time.{Time, Duration, hour}
use pomodoro_backend.Clock.Redis.{Redis, Fields, load_settings, load_system_state}

-- What else the program calls of go-redis and of the package time: `Expire`, of which the error is
-- not looked at, `t.Format("2006-01-02")`, and `int(d.Seconds())`, which goes through a float.
pub record Dated (r : Redis) : Type 0 where
  pub expire : r.Store → String → Duration → r.Store
  pub format_date : Time → String
  pub whole_seconds : Duration → ℤ

-- A call for one key leaves the others as they were.
pub record IsKeyed (r : Redis) (e : Dated r) : Type 0 where
  pub hset_other :
      (db : r.Store) (key other : String) (m : Fields)
      → key ≢ other
      → r.hgetall (r.hset db key m).0 other ≡ r.hgetall db other
  pub expire_other :
      (db : r.Store) (key other : String) (d : Duration)
      → key ≢ other
      → r.hgetall (e.expire db key d) other ≡ r.hgetall db other

module _ (r : Redis) (e : Dated r) where
  open r use {Store, hset, hgetall, format_int, format_time}
  open e use {expire, format_date, whole_seconds}

  abbrev pub statistics_key : String → Time → String
  statistics_key kind completed =
      append "session_stats:" (append kind (append ":" (format_date completed)))

  abbrev pub statistics_fields : String → Duration → Time → Fields
  statistics_fields kind duration completed =
      ("type", kind)
      ∷ ("duration", format_int (whole_seconds duration))
      ∷ ("completedAt", format_time completed)
      ∷ []

  -- `SaveSessionStatistics`: what the store holds then, and whether there was no error.
  unfoldable pub save_session_statistics :
      (kind : String) → Duration → (completed : Time) → Store → Store × Bool
  save_session_statistics kind duration completed db =
      let key = statistics_key kind completed in
      let (written, done) = hset db key (statistics_fields kind duration completed) in
      if done then (expire written key (pos (30 * (24 * hour))), true) else (written, false)

  key_ne_state : (s : String) → append "session_stats:" s ≢ "systemState"
  unfolding append has_prefix
  key_ne_state s p = ground (arith, ap (λ t. has_prefix t "session_stats:") p)

  key_ne_settings : (s : String) → append "session_stats:" s ≢ "pomodoroSettings"
  unfolding append has_prefix
  key_ne_settings s p = ground (arith, ap (λ t. has_prefix t "session_stats:") p)

  module _ (keyed : IsKeyed r e) where
    save_session_statistics_other :
        (kind : String) (d : Duration) (t : Time) (db : Store) (other : String)
        → statistics_key kind t ≢ other
        → hgetall (save_session_statistics kind d t db).0 other ≡ hgetall db other
    unfolding save_session_statistics
    save_session_statistics_other kind d t db other apart =
        let key = statistics_key kind t in
        let m = statistics_fields kind d t in
        let kept = keyed.hset_other db key other m apart in
        let left = keyed.expire_other (hset db key m).0 key other (pos (30 * (24 * hour))) apart in
        elim (Bool-cases (hset db key m).1) [
          | inl done ↦ rw done (left ∙ kept)
          | inr failed ↦ rw failed kept
        ]

    -- Whatever statistics of sessions are saved, with or without an error, the state and the
    -- settings that are loaded from the store stay the same, where a call for one key leaves the
    -- other keys as they were.
    load-save_session_statistics :
        (now : Time) (kind : String) (d : Duration) (t : Time) (db : Store)
        → (load_system_state r now (save_session_statistics kind d t db).0
            ≡ load_system_state r now db)
          × (load_settings r (save_session_statistics kind d t db).0 ≡ load_settings r db)
    unfolding load_system_state load_settings
    load-save_session_statistics now kind d t db = (
      rw
          (
            save_session_statistics_other kind d t db "systemState" (key_ne_state _),
            load_system_state,
          )
          refl,
      rw
          (
            save_session_statistics_other kind d t db "pomodoroSettings" (key_ne_settings _),
            load_settings,
          )
          refl,
    )
