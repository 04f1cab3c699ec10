-- ===== src/Clock/Runner/Interleave/Safety.antt =====
-- internal/clock/clock_runner.go: what holds however completions and methods are interleaved, and
-- what does not.
use mathlib.Core.Path.{subst}
use pomodoro_backend.Base.{◌≡◌, true, Option, none, some, List, [], ◌∷◌, ◌++◌, All, arith}
use pomodoro_backend.Clock.Time.{Time}
use pomodoro_backend.Clock.State.{is_session_state, set_state}
use pomodoro_backend.Clock.Session.Schedule.{next_session-IsValid, current_IsSession}
use pomodoro_backend.Clock.Timer.{
  TimerManager, new_session, resumed_session, start_timer, stop_timer, complete_begin, complete_end,
}
use pomodoro_backend.Clock.Redis.{Redis}
use pomodoro_backend.Clock.Runner.{ClockRunner}
use pomodoro_backend.Clock.Runner.Control.{begin_completion}
use pomodoro_backend.Clock.Runner.Phases.{run_op}
use pomodoro_backend.Clock.Runner.Invariant.{next_session_more}
use pomodoro_backend.Clock.Runner.Refine.{has_answer}
use pomodoro_backend.Clock.Runner.Interleave.{
  Stage, waiting, called, measured, recorded, ended, moved, picked, chosen, entered, armed, saving,
  returned, proceed, stages, System, Step, call, fire, go_on, Reach, fresh, later,
}
use pomodoro_backend.Clock.Runner.Interleave.Methods.{
  HasCallback, IsSane, method-IsSane, method-HasCallback, due-HasCallback, new_clock_runner-IsSane,
}

-- A completion has a callback, which it finds in the timer while it waits, and the states that it
-- carries are those of sessions.
abbrev pub IsProper : TimerManager → Stage → Type 0
IsProper tm waiting = HasCallback tm
IsProper tm (called o done) = (has_answer o ≡ true) × (is_session_state done ≡ true)
IsProper tm (measured d again done) = is_session_state done ≡ true
IsProper tm (recorded again) = Unit
IsProper tm (ended again) = Unit
IsProper tm (moved again) = Unit
IsProper tm (picked s again) = is_session_state s ≡ true
IsProper tm (chosen s d again) = is_session_state s ≡ true
IsProper tm (entered s d again) = is_session_state s ≡ true
IsProper tm (armed s again) = is_session_state s ≡ true
IsProper tm saving = Unit
IsProper tm returned = Unit

module _ (P : Stage → Type 0) where
  All-append : (l m : List Stage) → All P l → All P m → All P (l ++ m)
  All-append [] m hl hm = hm
  All-append (s ∷ l) m hl hm = (hl.0, All-append l m hl.1 hm)

  All-parts :
      (l : List Stage) (s : Stage) (m : List Stage) → All P (l ++ (s ∷ m)) → All P l × P s × All P m
  All-parts [] s m h = (tt, h.0, h.1)
  All-parts (t ∷ l) s m h =
      let (front, one, back) = All-parts l s m h.1 in ((h.0, front), one, back)

-- A timer that was set stays so, and the completions with it.
IsProper-later :
    (tm tm' : TimerManager) (s : Stage)
    → (HasCallback tm → HasCallback tm')
    → IsProper tm s
    → IsProper tm' s
IsProper-later tm tm' waiting keep p = keep p
IsProper-later tm tm' (called o done) keep p = p
IsProper-later tm tm' (measured d again done) keep p = p
IsProper-later tm tm' (recorded again) keep p = p
IsProper-later tm tm' (ended again) keep p = p
IsProper-later tm tm' (moved again) keep p = p
IsProper-later tm tm' (picked s again) keep p = p
IsProper-later tm tm' (chosen s d again) keep p = p
IsProper-later tm tm' (entered s d again) keep p = p
IsProper-later tm tm' (armed s again) keep p = p
IsProper-later tm tm' saving keep p = p
IsProper-later tm tm' returned keep p = p

All-later :
    (tm tm' : TimerManager) (l : List Stage)
    → (HasCallback tm → HasCallback tm')
    → All (IsProper tm) l
    → All (IsProper tm') l
All-later tm tm' [] keep h = tt
All-later tm tm' (s ∷ l) keep h = (IsProper-later tm tm' s keep h.0, All-later tm tm' l keep h.1)

module _ (r : Redis) where
  open r use {Store}

  -- A step of a completion keeps the clock sane and a timer that was set so, and its next stage is
  -- proper.
  abbrev Kept : ClockRunner Store → ClockRunner Store × Option Stage → Type 0
  Kept cr (cr', o) =
      IsSane cr'
      × (HasCallback cr.timer_manager → HasCallback cr'.timer_manager)
      × All (IsProper cr'.timer_manager) (stages r o)

  proceed-Kept :
      (now : Time) (s : Stage) (cr : ClockRunner Store)
      → IsSane cr
      → IsProper cr.timer_manager s
      → Kept cr (proceed r now s cr)
  unfolding proceed begin_completion complete_begin set_state start_timer stop_timer complete_end
  proceed-Kept now waiting cr h p = ground arith
  proceed-Kept now (called none done) cr h p = ground arith
  proceed-Kept now (called (some (new_session d)) done) cr h p = ground arith
  proceed-Kept now (called (some resumed_session) done) cr h p = ground arith
  proceed-Kept now (measured d again done) cr h p = ground arith
  proceed-Kept now (recorded again) cr h p = ground (
    arith,
    next_session-IsValid cr.session_manager h.sessions,
    next_session_more cr.session_manager,
  )
  proceed-Kept now (ended again) cr h p = ground arith
  proceed-Kept now (moved again) cr h p =
      ground (arith, current_IsSession cr.session_manager h.sessions)
  proceed-Kept now (picked s again) cr h p = ground arith
  proceed-Kept now (chosen s d again) cr h p = ground arith
  proceed-Kept now (entered s d again) cr h p = ground arith
  proceed-Kept now (armed s again) cr h p = ground arith
  proceed-Kept now saving cr h p = ground arith
  proceed-Kept now returned cr h p = ground arith

  Step-IsSane :
      (s t : System r)
      → Step r s t
      → IsSane s.clock
      → All (IsProper s.clock.timer_manager) s.flights
      → IsSane t.clock × All (IsProper t.clock.timer_manager) t.flights
  Step-IsSane s t (call op now other) h p = (
    method-IsSane r op now s.clock other h,
    All-later s.clock.timer_manager (run_op r op now s.clock).0.timer_manager s.flights
        (method-HasCallback r op now s.clock other h) p,
  )
  Step-IsSane s t (fire due set) h p = (h, (due-HasCallback r s.clock due set h, p))
  Step-IsSane s t (go_on now before after stage at) h p =
      let tm = s.clock.timer_manager in
      let tm' = (proceed r now stage s.clock).0.timer_manager in
      let (front, one, back) =
        All-parts (IsProper tm) before stage after (subst (λ l. All (IsProper tm) l) at p) in
      let (sane, keep, next) = proceed-Kept now stage s.clock h one in
      (
        sane,
        All-append (IsProper tm') before _ (All-later tm tm' before keep front) (
            All-append (IsProper tm') (stages r (proceed r now stage s.clock).1) after next
              (All-later tm tm' after keep back)),
      )

  -- In every run, however the methods of the user and the steps of any number of completions are
  -- interleaved: the position stays inside a schedule of sessions, the state stays idle, paused or
  -- one of a session, a timer that is set has a callback and is for a session's state, and so have
  -- the completions that are under way, those too that wait while the timer is stopped.
  pub Reach-IsSane :
      (store : Option Store) (s : System r)
      → Reach r store s
      → IsSane s.clock × All (IsProper s.clock.timer_manager) s.flights
  Reach-IsSane store s fresh = (new_clock_runner-IsSane r store, tt)
  Reach-IsSane store s (later h step) =
      let (sane, proper) = Reach-IsSane store _ h in Step-IsSane _ s step sane proper
