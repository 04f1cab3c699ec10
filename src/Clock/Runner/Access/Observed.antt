-- ===== src/Clock/Runner/Access/Observed.antt =====
-- internal/clock/clock_runner.go: what the clock reports of itself.
use pomodoro_backend.Base.{◌≡◌, ◌↔◌, true, ◌<◌, arith}
use pomodoro_backend.Clock.State.{is_idle, is_paused, is_running}
use pomodoro_backend.Clock.Session.Schedule.{current_IsSession}
use pomodoro_backend.Clock.Timer.{timer_is_running}
use pomodoro_backend.Clock.Runner.{ClockRunner}
use pomodoro_backend.Clock.Runner.Persist.{clock_is_running}
use pomodoro_backend.Clock.Runner.Access.{
  get_clock_session, get_clock_sessions, clock_is_idle, clock_is_paused,
}
use pomodoro_backend.Clock.Runner.Phases.{resting, running, held, phase}
use pomodoro_backend.Clock.Runner.Invariant.{IsCoherent}
use pomodoro_backend.Clock.Runner.Refine.{IsArmed}

module _ {Store : Type 0} where
  -- What a clock between two calls says of itself: it is idle, paused or running exactly if it rests,
  -- is held or runs, at the session that it names, which is one of the schedule.
  observed :
      (cr : ClockRunner Store)
      → IsCoherent cr
      → IsArmed cr
      → ((clock_is_idle cr ≡ true) ↔ (phase cr ≡ resting))
        × ((clock_is_paused cr ≡ true) ↔ (phase cr ≡ held (get_clock_session cr)))
        × ((clock_is_running cr ≡ true) ↔ (phase cr ≡ running (get_clock_session cr)))
        × (get_clock_session cr < get_clock_sessions cr)
  unfolding clock_is_idle clock_is_paused clock_is_running is_idle is_paused is_running
      timer_is_running
  observed cr h a =
      let session = current_IsSession cr.session_manager h.sessions in
      (
        (λ e. ground (arith, h.state, session), λ e. ground (arith, h.state, session)),
        (λ e. ground (arith, h.state, session), λ e. ground (arith, h.state, session)),
        (λ e. ground (arith, h.state, session), λ e. ground (arith, h.state, session)),
        h.sessions.inside,
      )
