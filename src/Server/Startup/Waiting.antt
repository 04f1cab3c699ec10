-- ===== src/Server/Startup/Waiting.antt =====
-- cmd/main.go: what may happen to the clock while the server waits for its database.
use pomodoro_backend.Base.{inl, inr, Option, none, some, arith}
use pomodoro_backend.Clock.Time.{Time}
use pomodoro_backend.Clock.State.{ClockState, idle}
use pomodoro_backend.Clock.Session.Schedule.{current_IsSession}
use pomodoro_backend.Clock.Timer.{
  Completion, new_session, resumed_session, complete_begin, complete_end, has_timer,
}
use pomodoro_backend.Clock.Redis.{Redis}
use pomodoro_backend.Clock.Runner.{ClockRunner}
use pomodoro_backend.Clock.Runner.Persist.{saver_tick}
use pomodoro_backend.Clock.Runner.Control.{
  run_completion, begin_completion, end_completion, complete, tick,
}
use pomodoro_backend.Clock.Runner.Invariant.{
  IsCoherent, on_complete-IsCoherent, on_resumed_complete-IsCoherent,
}
use pomodoro_backend.Clock.Resume.Robust.{IsSafe}
use mathlib.Core.Path.{subst}
use pomodoro_backend.Base.{List, [], ◌∷◌, Option-cases, ◌≡◌, sym, ap, refl, ◌∙◌}
use pomodoro_backend.Clock.Resume.Restore.{IsReset}
use pomodoro_backend.Clock.Runner.Phases.{complete_op, run_op}
use pomodoro_backend.Server.Startup.{Event, completed, ticked, saved, elapse}

-- The clock is idle and has no timer.
pub record IsResting {Store : Type 0} (cr : ClockRunner Store) : Type 0 where
  pub at_rest : cr.state_manager.state ≡ idle
  pub no_timer : cr.timer_manager.timer ≡ none

module _ (r : Redis) where
  open r use {Store}

  coherent-IsSafe : (cr : ClockRunner Store) → IsCoherent cr → IsSafe cr
  coherent-IsSafe cr h = record {
    sessions = h.sessions;
    settled = h.settled;
    quiet = ground (arith, h.timed, current_IsSession cr.session_manager h.sessions);
  }

  pub completion-IsSafe :
      (o : Option Completion) (now : Time) (done : ClockState) (cr : ClockRunner Store)
      → IsSafe cr
      → IsSafe (end_completion (run_completion r now o done (begin_completion cr)))
  unfolding run_completion begin_completion complete_begin end_completion complete_end
  completion-IsSafe none now done cr h = ground arith
  completion-IsSafe (some (new_session d)) now done cr h = coherent-IsSafe _ (
      on_complete-IsCoherent r now done d
        (record cr { timer_manager = complete_begin cr.timer_manager }) h.sessions)
  completion-IsSafe (some resumed_session) now done cr h = coherent-IsSafe _ (
      on_resumed_complete-IsCoherent r now done
        (record cr { timer_manager = complete_begin cr.timer_manager }) h.sessions)

  pub tick-IsSafe : (now : Time) (cr : ClockRunner Store) → IsSafe cr → IsSafe (tick now cr)
  unfolding tick
  tick-IsSafe now cr h = ground arith

  pub saver_tick-IsSafe :
      (now : Time) (cr : ClockRunner Store) → IsSafe cr → IsSafe (saver_tick r now cr)
  unfolding saver_tick
  saver_tick-IsSafe now cr h = ground arith

  complete_op_due :
      (now due : Time) (cr : ClockRunner Store)
      → cr.timer_manager.timer ≡ some due
      → (run_op r complete_op now cr).0 ≡ complete r now cr
  unfolding run_op
  complete_op_due now due cr e = rw e refl

  complete_op_undue :
      (now : Time) (cr : ClockRunner Store)
      → cr.timer_manager.timer ≡ none
      → (run_op r complete_op now cr).0 ≡ cr
  unfolding run_op
  complete_op_undue now cr e = rw e refl

  complete_op-IsSafe :
      (now : Time) (cr : ClockRunner Store) → IsSafe cr → IsSafe (run_op r complete_op now cr).0
  unfolding complete
  complete_op-IsSafe now cr h = elim (Option-cases cr.timer_manager.timer) [
    | inl e ↦ subst IsSafe (sym (complete_op_undue now cr e)) h
    | inr (due, e) ↦
        subst IsSafe (sym (complete_op_due now due cr e))
          (completion-IsSafe cr.timer_manager.on_complete now cr.timer_manager.current_state cr h)
  ]

  pub elapse-IsSafe :
      (events : List Event) (cr : ClockRunner Store) → IsSafe cr → IsSafe (elapse r events cr)
  unfolding elapse
  elapse-IsSafe [] cr h = h
  elapse-IsSafe (completed now ∷ events) cr h =
      elapse-IsSafe events (run_op r complete_op now cr).0 (complete_op-IsSafe now cr h)
  elapse-IsSafe (ticked now ∷ events) cr h =
      elapse-IsSafe events (tick now cr) (tick-IsSafe now cr h)
  elapse-IsSafe (saved now ∷ events) cr h =
      elapse-IsSafe events (saver_tick r now cr) (saver_tick-IsSafe now cr h)

  pub tick-IsResting :
      (now : Time) (cr : ClockRunner Store) → IsResting cr → IsResting (tick now cr)
  unfolding tick
  tick-IsResting now cr h = ground arith

  pub saver_tick-IsResting :
      (now : Time) (cr : ClockRunner Store) → IsResting cr → IsResting (saver_tick r now cr)
  unfolding saver_tick
  saver_tick-IsResting now cr h = ground arith

  -- Nothing happens by itself to a clock that rests.
  pub elapse-IsResting :
      (events : List Event) (cr : ClockRunner Store) → IsResting cr → IsResting (elapse r events cr)
  unfolding elapse
  elapse-IsResting [] cr h = h
  elapse-IsResting (completed now ∷ events) cr h =
      elapse-IsResting events (run_op r complete_op now cr).0
        (subst IsResting (sym (complete_op_undue now cr h.no_timer)) h)
  elapse-IsResting (ticked now ∷ events) cr h =
      elapse-IsResting events (tick now cr) (tick-IsResting now cr h)
  elapse-IsResting (saved now ∷ events) cr h =
      elapse-IsResting events (saver_tick r now cr) (saver_tick-IsResting now cr h)

  tick_position :
      (now : Time) (cr : ClockRunner Store) → (tick now cr).session_manager ≡ cr.session_manager
  unfolding tick
  tick_position now cr = ground arith

  saver_tick_position :
      (now : Time) (cr : ClockRunner Store)
      → (saver_tick r now cr).session_manager ≡ cr.session_manager
  unfolding saver_tick
  saver_tick_position now cr = ground arith

  elapse_position :
      (events : List Event) (cr : ClockRunner Store)
      → IsResting cr
      → (elapse r events cr).session_manager ≡ cr.session_manager
  unfolding elapse
  elapse_position [] cr h = refl
  elapse_position (completed now ∷ events) cr h =
      let same = complete_op_undue now cr h.no_timer in
      elapse_position events (run_op r complete_op now cr).0 (subst IsResting (sym same) h)
      ∙ ap (λ c. c.session_manager) same
  elapse_position (ticked now ∷ events) cr h =
      elapse_position events (tick now cr) (tick-IsResting now cr h) ∙ tick_position now cr
  elapse_position (saved now ∷ events) cr h =
      elapse_position events (saver_tick r now cr) (saver_tick-IsResting now cr h)
      ∙ saver_tick_position now cr

  pub elapse-IsReset :
      (events : List Event) (cr : ClockRunner Store) → IsReset cr → IsReset (elapse r events cr)
  elapse-IsReset events cr h =
      let rests : IsResting cr = record {
        at_rest = h.at_rest;
        no_timer = ground (arith, h.no_timer);
      } in
      let still = elapse-IsResting events cr rests in
      record {
        at_rest = still.at_rest;
        at_start = ap (λ m. m.current_session) (elapse_position events cr rests) ∙ h.at_start;
        no_timer = ap has_timer still.no_timer;
      }
