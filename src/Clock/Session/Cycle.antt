-- ===== src/Clock/Session/Cycle.antt =====
-- internal/clock/session.go: `NextSession` goes round the schedule for ever.
use pomodoro_backend.Base.{ℕ, zero, suc, ◌+◌, ◌%◌, ◌≡◌, ◌∙◌, ◌↔◌, true, arith, length}
use pomodoro_backend.Clock.Session.{SessionManager, next_session, is_last_session}
use pomodoro_backend.Clock.Session.Schedule.{IsValid, next_session-IsValid}

-- The schedule position after a number of calls of `NextSession`.
pub next_times : ℕ → SessionManager → SessionManager
next_times zero sm = sm
next_times (suc k) sm = next_times k (next_session sm).0

wrap_around : (c k n : ℕ) → c + 1 ≡ n → (0 + k) % n ≡ (c + suc k) % n
wrap_around c k n h = grind arith

next_position :
    (sm : SessionManager) (k : ℕ)
    → IsValid sm
    → ((next_session sm).0.current_session + k) % length (next_session sm).0.schedule
      ≡ (sm.current_session + suc k) % length sm.schedule
unfolding next_session
next_position sm k v = ground (arith, wrap_around sm.current_session k (length sm.schedule))

-- From a position inside a valid schedule, k calls of `NextSession` lead to the position k further
-- on, counted modulo the length of the schedule.
pub next_times_cycle :
    (k : ℕ) (sm : SessionManager)
    → IsValid sm
    → (next_times k sm).current_session ≡ (sm.current_session + k) % length sm.schedule
unfolding next_times
next_times_cycle zero sm v = grind arith
next_times_cycle (suc k) sm v =
    next_times_cycle k (next_session sm).0 (next_session-IsValid sm v) ∙ next_position sm k v

-- Only the last session is followed by the first one.
next_session_wraps :
    (sm : SessionManager)
    → IsValid sm
    → (is_last_session sm ≡ true) ↔ ((next_session sm).0.current_session ≡ 0)
unfolding next_session is_last_session
next_session_wraps sm v = (λ h. ground arith, λ h. ground arith)

pub next_session_mod :
    (sm : SessionManager)
    → IsValid sm
    → (next_session sm).0.current_session ≡ (sm.current_session + 1) % length sm.schedule
unfolding next_session next_times
next_session_mod sm v = next_times_cycle 1 sm v
