-- ===== src/Clock/Session.antt =====
-- internal/clock/session.go: the schedule of sessions and the position in it.
pub mod Schedule
pub mod Cycle
use pomodoro_backend.Base.{
  ℕ, suc, ◌+◌, ◌-◌, ◌*◌, Bool, true, false, not, Option, none, some, List, [], ◌∷◌, length, get_or,
  if◌then◌else◌, leb, ltb, ◌==◌, ℤ, pos, negsuc, pos_part, ltb_ℤ, leb_ℤ, div64,
}
use pomodoro_backend.Clock.Time.{Duration, minute}
use pomodoro_backend.Clock.State.{
  ClockState, idle, working, short_break, long_break, paused, other, is_session_state,
}

-- `current_session` is a Go int. It is never negative for a schedule that is not empty, and no
-- method leaves the schedule empty.
pub record SessionManager : Type 0 where
  pub work_duration : Duration
  pub short_break_duration : Duration
  pub long_break_duration : Duration
  pub schedule : List ClockState
  pub current_session : ℕ

abbrev pub default_schedule : List ClockState
default_schedule =
    working ∷ short_break ∷ working ∷ short_break ∷ working ∷ short_break ∷ working ∷ long_break
    ∷ []

unfoldable pub new_session_manager : SessionManager
new_session_manager = record {
  work_duration = pos (25 * minute);
  short_break_duration = pos (5 * minute);
  long_break_duration = pos (15 * minute);
  schedule = default_schedule;
  current_session = 0;
}

unfoldable pub set_durations : (work short long : Duration) → SessionManager → SessionManager
set_durations work short long sm = record sm {
  work_duration = work;
  short_break_duration = short;
  long_break_duration = long;
}

-- `int(d.Minutes())`: the whole minutes, rounded towards zero. The float between the two is exact
-- enough below 2 ^ 18 minutes.
abbrev pub whole_minutes : Duration → ℤ
whole_minutes d = div64 d (pos minute)

unfoldable pub get_durations : SessionManager → ℤ × ℤ × ℤ
get_durations sm = (
  whole_minutes sm.work_duration,
  whole_minutes sm.short_break_duration,
  whole_minutes sm.long_break_duration,
)

abbrev pub get_current_session : SessionManager → ℕ
get_current_session sm = sm.current_session

abbrev pub get_total_sessions : SessionManager → ℕ
get_total_sessions sm = length sm.schedule

unfoldable pub get_current_session_state : SessionManager → ClockState
get_current_session_state sm =
    if leb (length sm.schedule) sm.current_session
    then idle
    else get_or sm.schedule sm.current_session idle

-- The `switch` on a session's state in `GetCurrentSessionDuration` and `GetSessionInfoAt`.
abbrev pub duration_of : SessionManager → ClockState → Duration
duration_of sm working = sm.work_duration
duration_of sm short_break = sm.short_break_duration
duration_of sm long_break = sm.long_break_duration
duration_of sm _ = pos 0

unfoldable pub get_current_session_duration : SessionManager → Duration
get_current_session_duration sm =
    if leb (length sm.schedule) sm.current_session
    then pos 0
    else duration_of sm (get_or sm.schedule sm.current_session idle)

-- `NextSession` always returns true.
unfoldable pub next_session : SessionManager → SessionManager × Bool
next_session sm =
    let next = sm.current_session + 1 in
    (record sm { current_session = if leb (length sm.schedule) next then 0 else next }, true)

unfoldable pub reset_sessions : SessionManager → SessionManager
reset_sessions sm = record sm { current_session = 0 }

-- On an empty schedule the source sets -1; the model's number stops at 0 there.
unfoldable pub set_current_session : ℤ → SessionManager → SessionManager
set_current_session session sm = record sm {
  current_session =
      if ltb_ℤ session (pos 0)
      then 0
      else if leb_ℤ (pos (length sm.schedule)) session
      then length sm.schedule - 1
      else pos_part session;
}

-- `currentSession == len(schedule) - 1`, written without the subtraction.
unfoldable pub is_last_session : SessionManager → Bool
is_last_session sm = sm.current_session + 1 == length sm.schedule

pub record SessionInfo : Type 0 where
  pub state : ClockState
  pub session_num : ℕ
  pub total_sessions : ℕ
  pub duration : Duration

unfoldable pub get_session_info : SessionManager → SessionInfo
unfolding get_current_session_state get_current_session_duration
get_session_info sm = record {
  state = get_current_session_state sm;
  session_num = sm.current_session;
  total_sessions = length sm.schedule;
  duration = get_current_session_duration sm;
}

unfoldable pub get_session_info_at : ℤ → SessionManager → SessionInfo
get_session_info_at (negsuc n) sm = record {
  state = idle;
  session_num = 0;
  total_sessions = length sm.schedule;
  duration = pos 0;
}
get_session_info_at (pos n) sm =
    let state = get_or sm.schedule n idle in
    if leb (length sm.schedule) n
    then record {
      state = idle;
      session_num = 0;
      total_sessions = length sm.schedule;
      duration = pos 0;
    }
    else record {
      state = state;
      session_num = n;
      total_sessions = length sm.schedule;
      duration = duration_of sm state;
    }

abbrev pub get_schedule : SessionManager → List ClockState
get_schedule sm = sm.schedule

-- The errors of `SetSchedule`
pub data ScheduleError : Type 0 where
  invalid_state : ClockState → ScheduleError
  empty_schedule : ScheduleError

-- The loop that looks for a state that is none of a session.
unfoldable pub find_invalid : List ClockState → Option ClockState
find_invalid [] = none
find_invalid (state ∷ rest) = if not (is_session_state state) then some state else find_invalid rest

-- The new manager, and the error or nil.
unfoldable pub set_schedule :
    List ClockState → SessionManager → SessionManager × Option ScheduleError
set_schedule schedule sm = elim (find_invalid schedule) [
  | some state ↦ (sm, some (invalid_state state))
  | none ↦
      if length schedule == 0
      then (sm, some empty_schedule)
      else (record sm { schedule = schedule; current_session = 0 }, none)
]
