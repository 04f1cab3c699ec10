-- ===== src/Server/Startup/Clocks.antt =====
-- cmd/utils.go: what `init` makes of the clock that was resumed.
use Prim.Native.Nat.{min}
use mathlib.Core.Path.{subst}
use mathlib.Core.Option.{some-injective}
use pomodoro_backend.Base.{
  ℕ, ◌-◌, ◌<◌, ◌≡◌, ◌≢◌, ◌↔◌, refl, ◌⊎◌, inl, inr, none, some, List, [], ◌∷◌, length, get_elem?,
  get_elem?-get_or, sym, ap, some, ◌∙◌, arith, pos,
}
use pomodoro_backend.Clock.State.{ClockState, idle}
use pomodoro_backend.Clock.Session.{
  SessionManager, get_current_session_state, set_schedule, set_current_session, set_durations,
}
use pomodoro_backend.Clock.Session.Schedule as Schedule
use pomodoro_backend.Clock.Session.Schedule.{
  IsSchedule, set_schedule_atomic, set_current_session_clamps, set_schedule-IsValid,
  set_current_session-IsValid, current_IsSession,
}
use pomodoro_backend.Clock.Redis.{Redis}
use pomodoro_backend.Clock.Runner.{ClockRunner}
use pomodoro_backend.Clock.Runner.Persist.{set_clock_durations, minutes}
use pomodoro_backend.Clock.Runner.Access.{set_clock_schedule}
use pomodoro_backend.Clock.Runner.Invariant.{IsCoherent}
use pomodoro_backend.Server.Settings.{PomodoroSetting}
use pomodoro_backend.Server.Startup.{app_init}

some_sessions : (l : List ClockState) → l ≢ [] → 0 < length l
some_sessions [] h = absurd (h refl)
some_sessions (c ∷ l) h = omega arith

module _ (r : Redis) where
  open r use {Store}

  -- What `init` leaves as it was, and where it leaves the position.
  pub record IsInitialised (s : PomodoroSetting) (cr cr' : ClockRunner Store) : Type 0 where
    pub accepted : IsSchedule s.scheduling × (s.scheduling ≢ [])
    pub state : cr'.state_manager ≡ cr.state_manager
    pub timer : cr'.timer_manager ≡ cr.timer_manager
    pub statistics : cr'.stats_manager ≡ cr.stats_manager
    pub saver : cr'.saver ≡ cr.saver
    pub schedule : cr'.session_manager.schedule ≡ s.scheduling
    pub position :
        cr'.session_manager.current_session
        ≡ min cr.session_manager.current_session (length s.scheduling - 1)

  -- The session manager with the durations of the settings.
  abbrev timed : PomodoroSetting → ClockRunner Store → SessionManager
  timed s cr =
      set_durations (minutes r s.work_time_duration) (minutes r s.short_break_duration)
        (minutes r s.long_break_duration) cr.session_manager

  app_init_refused :
      (s : PomodoroSetting) (cr : ClockRunner Store)
      → (set_schedule s.scheduling (timed s cr)).1 ≢ none
      → app_init r s cr ≡ none
  unfolding app_init set_clock_schedule set_clock_durations
  app_init_refused s cr e = ground arith

  abbrev initialised : PomodoroSetting → ClockRunner Store → ClockRunner Store
  initialised s cr =
      let set =
        set_clock_durations r (minutes r s.work_time_duration) (minutes r s.short_break_duration)
          (minutes r s.long_break_duration) cr in
      record set {
        session_manager =
            set_current_session (pos cr.session_manager.current_session)
              (record (timed s cr) { schedule = s.scheduling; current_session = 0 });
      }

  app_init_accepted :
      (s : PomodoroSetting) (cr : ClockRunner Store)
      → set_schedule s.scheduling (timed s cr)
        ≡ (record (timed s cr) { schedule = s.scheduling; current_session = 0 }, none)
      → app_init r s cr ≡ some (initialised s cr)
  unfolding app_init set_clock_schedule set_clock_durations
  app_init_accepted s cr e = ground (arith, e)

  initialised-IsInitialised :
      (s : PomodoroSetting) (cr : ClockRunner Store)
      → IsSchedule s.scheduling
      → s.scheduling ≢ []
      → IsInitialised s cr (initialised s cr)
  unfolding set_clock_durations set_current_session
  initialised-IsInitialised s cr good full = record {
    accepted = (good, full);
    state = refl;
    timer = refl;
    statistics = refl;
    saver = refl;
    schedule = refl;
    position = ground arith;
  }

  -- `init` ends the program for a schedule that is empty or has a state that is none of a session.
  -- Else it installs the schedule, and leaves the state, the timer and the position of the clock
  -- as they were, but a position behind the schedule, which is set to its last session.
  pub app_init_lem :
      (s : PomodoroSetting) (cr : ClockRunner Store)
      → (¬ (IsSchedule s.scheduling × (s.scheduling ≢ [])) × (app_init r s cr ≡ none))
        ⊎ ((cr' : ClockRunner Store) × (app_init r s cr ≡ some cr') × IsInitialised s cr cr')
  app_init_lem s cr = elim (set_schedule_atomic s.scheduling (timed s cr)) [
    | inr (bad, same, e) ↦ inl (bad, app_init_refused s cr e)
    | inl (good, full, e) ↦
        inr (initialised s cr, app_init_accepted s cr e, initialised-IsInitialised s cr good full)
  ]

  -- What `init` returned, where it returned.
  pub app_init-IsInitialised :
      (s : PomodoroSetting) (cr cr' : ClockRunner Store)
      → app_init r s cr ≡ some cr'
      → IsInitialised s cr cr'
  app_init-IsInitialised s cr cr' h = elim (app_init_lem s cr) [
    | inl (bad, e) ↦ ground arith
    | inr (made, e, done) ↦
        let same : made ≡ cr' = ground arith in subst (λ c. IsInitialised s cr c) same done
  ]

  position_inside : (k n : ℕ) → 0 < n → min k (n - 1) < n
  position_inside k n h = ground arith

  pub app_init-IsValid :
      (s : PomodoroSetting) (cr cr' : ClockRunner Store)
      → IsInitialised s cr cr'
      → Schedule.IsValid cr'.session_manager
  app_init-IsValid s cr cr' done = record {
    sessions = rw done.schedule done.accepted.0;
    inside =
        rw (done.position, done.schedule)
          (position_inside cr.session_manager.current_session (length s.scheduling)
            (some_sessions s.scheduling done.accepted.1));
  }

  -- Behind `init` the session is the entry of the new schedule at the position kept.
  current_lem :
      (s : PomodoroSetting) (cr cr' : ClockRunner Store)
      → IsInitialised s cr cr'
      → get_elem? s.scheduling (min cr.session_manager.current_session (length s.scheduling - 1))
        ≡ some (get_current_session_state cr'.session_manager)
  unfolding get_current_session_state
  current_lem s cr cr' done =
      let v = app_init-IsValid s cr cr' done in
      let at =
        get_elem?-get_or cr'.session_manager.schedule cr'.session_manager.current_session idle
          v.inside in
      rw (sym done.position, sym done.schedule) (ground (arith, at, v.inside))

  IsCoherent-if_same :
      (s : PomodoroSetting) (cr cr' : ClockRunner Store)
      → IsCoherent cr
      → IsInitialised s cr cr'
      → IsCoherent cr' ↔ (
          (cr.state_manager.state ≡ idle)
          ⊎ (get_current_session_state cr'.session_manager
              ≡ get_current_session_state cr.session_manager))
  IsCoherent-if_same s cr cr' h done =
      let v = app_init-IsValid s cr cr' done in
      let session = current_IsSession cr.session_manager h.sessions in
      (λ h'. ground arith, λ either. ground arith)

  -- A clock that rests stays coherent under `init`. A coherent clock in a session stays so exactly
  -- if the schedule of the settings has at the position of the clock, or at its last one if it is
  -- shorter, the same kind of session as the schedule of the clock had.
  pub app_init-IsCoherent_iff :
      (s : PomodoroSetting) (cr cr' : ClockRunner Store)
      → IsCoherent cr
      → app_init r s cr ≡ some cr'
      → IsCoherent cr' ↔ (
          (cr.state_manager.state ≡ idle)
          ⊎ (get_elem? s.scheduling
                (min cr.session_manager.current_session (length s.scheduling - 1))
              ≡ some (get_current_session_state cr.session_manager)))
  app_init-IsCoherent_iff s cr cr' h e =
      let done = app_init-IsInitialised s cr cr' e in
      let (there, back) = IsCoherent-if_same s cr cr' h done in
      let at = current_lem s cr cr' done in
      (
        λ h'. elim (there h') [ inl rests ↦ inl rests | inr same ↦ inr (at ∙ ap some same) ],
        λ either. elim either [
          | inl rests ↦ back (inl rests)
          | inr same ↦ back (inr (some-injective _ _ (sym at ∙ same)))
        ],
      )
