-- ===== src/Clock/Session/Schedule.antt =====
-- internal/clock/session.go: the schedule stays valid and the position stays inside it.
use Prim.Native.Nat.{min}
use pomodoro_backend.Base.{
  ◌-◌, ◌<◌, ◌≡◌, ◌≢◌, refl, ◌⊎◌, inl, inr, Option-cases, true, none, some, List, [], ◌∷◌, length,
  All, All-get_or, arith, ℤ, pos, pos_part,
}
use pomodoro_backend.Clock.Time.{Duration}
use pomodoro_backend.Clock.State.{ClockState, idle, is_session_state}
use pomodoro_backend.Clock.Session.{
  SessionManager, new_session_manager, set_durations, get_current_session_state, next_session,
  reset_sessions, set_current_session, get_session_info, get_session_info_at, find_invalid,
  set_schedule,
}

-- Every entry is a session's state.
abbrev pub IsSchedule : List ClockState → Type 0
IsSchedule = All (λ s. is_session_state s ≡ true)

pub record IsValid (sm : SessionManager) : Type 0 where
  pub sessions : IsSchedule sm.schedule
  pub inside : sm.current_session < length sm.schedule

pub new_session_manager-IsValid : IsValid new_session_manager
unfolding new_session_manager
new_session_manager-IsValid = ground arith

pub next_session-IsValid : (sm : SessionManager) → IsValid sm → IsValid (next_session sm).0
unfolding next_session
next_session-IsValid sm v = ground arith

pub reset_sessions-IsValid : (sm : SessionManager) → IsValid sm → IsValid (reset_sessions sm)
unfolding reset_sessions
reset_sessions-IsValid sm v = ground arith

pub set_current_session-IsValid :
    (n : ℤ) (sm : SessionManager) → IsValid sm → IsValid (set_current_session n sm)
unfolding set_current_session
set_current_session-IsValid n sm v = ground arith

pub set_durations-IsValid :
    (w s l : Duration) (sm : SessionManager) → IsValid sm → IsValid (set_durations w s l sm)
unfolding set_durations
set_durations-IsValid w s l sm v = ground arith

pub find_invalid_none : (l : List ClockState) → find_invalid l ≡ none → IsSchedule l
unfolding find_invalid
find_invalid_none [] h = tt
find_invalid_none (s ∷ l) h = ground (arith, find_invalid_none l)

pub find_invalid_complete : (l : List ClockState) → IsSchedule l → find_invalid l ≡ none
unfolding find_invalid
find_invalid_complete [] h = refl
find_invalid_complete (s ∷ l) h = ground (arith, find_invalid_complete l)

pub set_schedule-IsValid :
    (l : List ClockState) (sm : SessionManager) → IsValid sm → IsValid (set_schedule l sm).0
unfolding set_schedule
set_schedule-IsValid l sm v = ground (arith, find_invalid_none l)

-- In a valid manager the current session's state is that of a session.
pub current_IsSession :
    (sm : SessionManager) → IsValid sm → is_session_state (get_current_session_state sm) ≡ true
unfolding get_current_session_state
current_IsSession sm v = ground (
  arith,
  All-get_or (λ s. is_session_state s ≡ true) sm.schedule sm.current_session idle v.sessions,
)

not_IsSchedule : (l : List ClockState) {s : ClockState} → find_invalid l ≡ some s → ¬ IsSchedule l
not_IsSchedule l e v = cc (find_invalid_complete l v)

-- `SetSchedule` either gets a list that is not empty and holds only states of a session, installs
-- it and goes back to its first session, or gets another list, reports an error and changes nothing.
pub set_schedule_atomic :
    (l : List ClockState) (sm : SessionManager)
    → (IsSchedule l
        × (l ≢ [])
        × (set_schedule l sm ≡ (record sm { schedule = l; current_session = 0 }, none)))
      ⊎ (¬ (IsSchedule l × (l ≢ []))
          × ((set_schedule l sm).0 ≡ sm)
          × ((set_schedule l sm).1 ≢ none))
unfolding set_schedule find_invalid
set_schedule_atomic [] sm = inr (λ h. h.1 refl, refl, λ e. cc)
set_schedule_atomic (s ∷ l) sm = elim (Option-cases (find_invalid (s ∷ l))) [
  | inl e ↦ inl (find_invalid_none (s ∷ l) e, λ h. cc, ground arith)
  | inr (bad, e) ↦ inr (λ h. not_IsSchedule (s ∷ l) e h.0, ground arith, λ h. ground arith)
]

-- In a valid manager `SetCurrentSession` clamps its argument to the positions of the schedule.
pub set_current_session_clamps :
    (n : ℤ) (sm : SessionManager)
    → IsValid sm
    → (set_current_session n sm).current_session ≡ min (pos_part n) (length sm.schedule - 1)
unfolding set_current_session
set_current_session_clamps n sm v = ground arith

-- In a valid manager the information about the current session is the information that
-- `GetSessionInfoAt` gives for its position.
pub get_session_info_at_current :
    (sm : SessionManager)
    → IsValid sm
    → get_session_info_at (pos sm.current_session) sm ≡ get_session_info sm
unfolding get_session_info_at get_session_info
get_session_info_at_current sm v = ground arith
