-- ===== src/Clock/Runner/Interleave/Alone.antt =====
-- internal/clock/timer.go: a completion with nothing in between.
use mathlib.Core.Path.{subst}
use pomodoro_backend.Base.{
  ℕ, zero, suc, ◌+◌, ◌%◌, ◌≡◌, refl, sym, ap, ◌∙◌, true, inr, Option, none, some, [], ◌∷◌, ◌++◌,
  length,
}
use pomodoro_backend.Clock.Time.{Time}
use pomodoro_backend.Clock.State.{is_session_state, is_running, set_state}
use pomodoro_backend.Clock.Session.{next_session, get_current_session_state}
use pomodoro_backend.Clock.Session.Schedule as Schedule
use pomodoro_backend.Clock.Session.Schedule.{next_session-IsValid, current_IsSession}
use pomodoro_backend.Clock.Session.Cycle.{next_session_mod}
use pomodoro_backend.Clock.Timer.{
  has_timer, Completion, new_session, resumed_session, start_timer, complete_begin, complete_end,
}
use pomodoro_backend.Clock.Timer.Coherent.{IsSettled}
use pomodoro_backend.Clock.Redis.{Redis}
use pomodoro_backend.Clock.Runner.{ClockRunner}
use pomodoro_backend.Clock.Runner.Control.{begin_completion, end_completion}
use pomodoro_backend.Clock.Runner.Phases.{complete_op, contract, phase, running}
use pomodoro_backend.Clock.Runner.Invariant.{IsCoherent}
use pomodoro_backend.Clock.Runner.Outcomes.{phase_of_session}
use pomodoro_backend.Clock.Runner.Refine.{has_answer, IsArmed, answer, in_session}
use pomodoro_backend.Clock.Runner.Interleave.{
  Stage, waiting, proceed, stages, System, fire, go_on, Reach, later,
}

module _ (r : Redis) where
  open r use {Store}

  -- A system with nothing under way.
  abbrev pub quiet : ClockRunner Store → System r
  quiet cr = record { clock = cr; flights = [] }

  abbrev alone : ClockRunner Store → Stage → System r
  alone cr s = record { clock = cr; flights = s ∷ [] }

  -- A completion goes on by so many steps, or to its end; each step has a time of its own.
  unfoldable pub go_alone :
      ℕ → (now : ℕ → Time) → ClockRunner Store × Option Stage → ClockRunner Store × Option Stage
  go_alone zero now (cr, o) = (cr, o)
  go_alone (suc n) now (cr, none) = (cr, none)
  go_alone (suc n) now (cr, some s) = go_alone n now (proceed r (now n) s cr)

  Reached : (store : Option Store) → ClockRunner Store × Option Stage → Type 0
  Reached store (cr, o) = Reach r store (record { clock = cr; flights = stages r o ++ [] })

  go_alone-Reach :
      (store : Option Store) (n : ℕ) (now : ℕ → Time) (x : ClockRunner Store × Option Stage)
      → Reached store x
      → Reached store (go_alone n now x)
  unfolding Reached go_alone
  go_alone-Reach store zero now (cr, o) h = h
  go_alone-Reach store (suc n) now (cr, none) h = h
  go_alone-Reach store (suc n) now (cr, some s) h =
      go_alone-Reach store n now (proceed r (now n) s cr) (later h (go_on (now n) [] [] s refl))

  -- How a completion ends by itself: at the next session, with its state and its timer.
  record HasMoved (cr : ClockRunner Store) (x : ClockRunner Store × Option Stage) : Type 0 where
    over : x.1 ≡ none
    sessions : x.0.session_manager ≡ (next_session cr.session_manager).0
    state : x.0.state_manager.state ≡ get_current_session_state (next_session cr.session_manager).0
    timer : has_timer x.0.timer_manager.timer ≡ true
    answered : has_answer x.0.timer_manager.on_complete ≡ true
    named :
        x.0.timer_manager.current_state
        ≡ get_current_session_state (next_session cr.session_manager).0
    settled : IsSettled x.0.timer_manager

  go_alone-HasMoved :
      (now : ℕ → Time) (c : Completion) (cr : ClockRunner Store)
      → cr.timer_manager.on_complete ≡ some c
      → HasMoved cr (go_alone 11 now (cr, some waiting))
  unfolding go_alone proceed next_session set_state begin_completion end_completion complete_begin
      complete_end start_timer
  go_alone-HasMoved now (new_session d) cr set = rw set (record {
    over = refl;
    sessions = refl;
    state = refl;
    timer = refl;
    answered = refl;
    named = refl;
    settled = record { ticking = refl; cancellable = refl; quiet = refl };
  })
  go_alone-HasMoved now resumed_session cr set = rw set (record {
    over = refl;
    sessions = refl;
    state = refl;
    timer = refl;
    answered = refl;
    named = refl;
    settled = record { ticking = refl; cancellable = refl; quiet = refl };
  })

  HasMoved-phase :
      (cr : ClockRunner Store) (x : ClockRunner Store × Option Stage)
      → HasMoved cr x
      → Schedule.IsValid cr.session_manager
      → phase x.0
        ≡ running ((cr.session_manager.current_session + 1) % length cr.session_manager.schedule)
  HasMoved-phase cr x m v =
      let session =
        current_IsSession (next_session cr.session_manager).0
          (next_session-IsValid cr.session_manager v) in
      rw (m.state, m.sessions)
        (phase_of_session _ _ session ∙ ap running (next_session_mod cr.session_manager v))

  HasMoved-IsCoherent :
      (cr : ClockRunner Store) (x : ClockRunner Store × Option Stage)
      → HasMoved cr x
      → Schedule.IsValid cr.session_manager
      → IsCoherent x.0
  HasMoved-IsCoherent cr x m v =
      let same : get_current_session_state x.0.session_manager
          ≡ get_current_session_state (next_session cr.session_manager).0 =
        ap get_current_session_state m.sessions in
      record {
        sessions = rw m.sessions (next_session-IsValid cr.session_manager v);
        settled = m.settled;
        state = inr (inr (m.state ∙ sym same));
        timed = inr (m.state ∙ sym same);
        named = inr (m.named ∙ sym same);
      }

  HasMoved-IsArmed :
      (cr : ClockRunner Store) (x : ClockRunner Store × Option Stage)
      → HasMoved cr x
      → Schedule.IsValid cr.session_manager
      → IsArmed x.0
  unfolding is_running
  HasMoved-IsArmed cr x m v =
      let session =
        current_IsSession (next_session cr.session_manager).0
          (next_session-IsValid cr.session_manager v) in
      record {
        matched = ap is_session_state m.state ∙ session ∙ sym m.timer;
        answered = inr m.answered;
      }

  contract_lem :
      (n : ℕ) (cr : ClockRunner Store) {due : Time}
      → cr.timer_manager.timer ≡ some due
      → IsArmed cr
      → contract n complete_op (phase cr)
        ≡ some (running ((cr.session_manager.current_session + 1) % n))
  contract_lem n cr set a =
      ap (contract n complete_op)
        (phase_of_session _ cr.session_manager.current_session (in_session r _ cr refl set a))

  -- From a reached clock with nothing under way, which is coherent and armed, a completion with
  -- nothing in between ends after at most 11 steps, whenever each of them is taken: the system gets
  -- to a clock with nothing under way, which is in the phase that the contract gives for a completed
  -- session, and is coherent and armed again.
  pub go_alone-refines :
      (store : Option Store) (now : ℕ → Time) (due : Time) (cr : ClockRunner Store)
      → Reach r store (quiet cr)
      → cr.timer_manager.timer ≡ some due
      → IsCoherent cr
      → IsArmed cr
      → (cr' : ClockRunner Store) × (go_alone 11 now (cr, some waiting) ≡ (cr', none))
        × Reach r store (quiet cr')
        × (some (phase cr') ≡ contract (length cr.session_manager.schedule) complete_op (phase cr))
        × IsCoherent cr'
        × IsArmed cr'
  unfolding Reached
  go_alone-refines store now due cr h set co a =
      let x = go_alone 11 now (cr, some waiting) in
      let (c, given) = answer r cr set a in
      let m = go_alone-HasMoved now c cr given in
      let ends : x ≡ (x.0, none) = ap (λ o. (x.0, o)) m.over in
      let got = go_alone-Reach store 11 now (cr, some waiting) (later h (fire due set)) in
      (
        x.0,
        ends,
        subst (Reached store) ends got,
        ap some (HasMoved-phase cr x m co.sessions) ∙ sym (contract_lem _ cr set a),
        HasMoved-IsCoherent cr x m co.sessions,
        HasMoved-IsArmed cr x m co.sessions,
      )
