-- ===== src/Clock/Stats.antt =====
-- internal/clock/statistics.go: the totals and the history of the sessions.
pub mod Totals
pub mod Queries
pub mod Score
use pomodoro_backend.Base.{
  ℕ, ◌-◌, ◌*◌, Bool, ◌&&◌, List, [], ◌∷◌, ◌++◌, length, drop, if◌then◌else◌, ◌==◌, ℤ, pos, negsuc,
  pos_part, ltb_ℤ, leb_ℤ, add64, div64, Float64,
}
use pomodoro_backend.Clock.Time.{Duration, Time, after, truncate_day, day}
use pomodoro_backend.Clock.State.{
  ClockState, idle, working, short_break, long_break, paused, other, state_eq,
}

pub record SessionRecord : Type 0 where
  pub state : ClockState
  pub duration : Duration
  pub completed : Time

-- The counts are Go ints.
pub record StatisticsManager : Type 0 where
  pub total_work_sessions : ℤ
  pub total_short_breaks : ℤ
  pub total_long_breaks : ℤ
  pub total_work_time : Duration
  pub total_break_time : Duration
  pub total_session_time : Duration
  pub session_history : List SessionRecord

unfoldable pub new_statistics_manager : StatisticsManager
new_statistics_manager = record {
  total_work_sessions = pos 0;
  total_short_breaks = pos 0;
  total_long_breaks = pos 0;
  total_work_time = pos 0;
  total_break_time = pos 0;
  total_session_time = pos 0;
  session_history = [];
}

-- The `switch` of `RecordSession`, which has no default.
abbrev pub count_session : ClockState → Duration → StatisticsManager → StatisticsManager
count_session working d sm = record sm {
  total_work_sessions = add64 sm.total_work_sessions (pos 1);
  total_work_time = add64 sm.total_work_time d;
}
count_session short_break d sm = record sm {
  total_short_breaks = add64 sm.total_short_breaks (pos 1);
  total_break_time = add64 sm.total_break_time d;
}
count_session long_break d sm = record sm {
  total_long_breaks = add64 sm.total_long_breaks (pos 1);
  total_break_time = add64 sm.total_break_time d;
}
count_session _ d sm = sm

-- `now` is the reading of the clock in `RecordSession`.
unfoldable pub record_session : Time → ClockState → Duration → StatisticsManager → StatisticsManager
record_session now state d sm =
    let entry : SessionRecord = record { state = state; duration = d; completed = now } in
    let counted =
      count_session state d (record sm { session_history = sm.session_history ++ entry ∷ [] }) in
    record counted { total_session_time = add64 counted.total_session_time d }

unfoldable pub get_statistics : StatisticsManager → ℤ × ℤ × ℤ
get_statistics sm = (sm.total_work_sessions, sm.total_short_breaks, sm.total_long_breaks)

unfoldable pub get_timing_statistics : StatisticsManager → Duration × Duration × Duration
get_timing_statistics sm = (sm.total_work_time, sm.total_break_time, sm.total_session_time)

abbrev pub get_session_history : StatisticsManager → List SessionRecord
get_session_history sm = sm.session_history

unfoldable pub get_recent_sessions : ℤ → StatisticsManager → List SessionRecord
get_recent_sessions count sm =
    let size = length sm.session_history in
    let taken = if ltb_ℤ (pos size) count then size else pos_part count in
    if leb_ℤ count (pos 0) then [] else drop (size - taken) sm.session_history

-- The loops of `GetSessionsByState` and `GetTodaySessions` keep the records that pass a test.
abbrev pub keep : (SessionRecord → Bool) → List SessionRecord → List SessionRecord
keep p [] = []
keep p (r ∷ rs) = let rest = keep p rs in if p r then r ∷ rest else rest

unfoldable pub get_sessions_by_state : ClockState → StatisticsManager → List SessionRecord
get_sessions_by_state state sm = keep (λ r. state_eq r.state state) sm.session_history

unfoldable pub get_today_sessions : Time → StatisticsManager → List SessionRecord
get_today_sessions now sm = keep (λ r. after r.completed (truncate_day now)) sm.session_history

pub record WeeklyStats : Type 0 where
  pub work_sessions : ℤ
  pub short_breaks : ℤ
  pub long_breaks : ℤ
  pub work_time : Duration
  pub break_time : Duration

-- The `switch` in the loop of `GetWeeklyStats`
abbrev pub add_weekly : ClockState → Duration → WeeklyStats → WeeklyStats
add_weekly working d w = record w {
  work_sessions = add64 w.work_sessions (pos 1);
  work_time = add64 w.work_time d;
}
add_weekly short_break d w = record w {
  short_breaks = add64 w.short_breaks (pos 1);
  break_time = add64 w.break_time d;
}
add_weekly long_break d w = record w {
  long_breaks = add64 w.long_breaks (pos 1);
  break_time = add64 w.break_time d;
}
add_weekly _ d w = w

unfoldable pub weekly_loop : Time → WeeklyStats → List SessionRecord → WeeklyStats
weekly_loop start w [] = w
weekly_loop start w (r ∷ rs) =
    weekly_loop start (if after r.completed start then add_weekly r.state r.duration w else w) rs

abbrev pub no_weekly : WeeklyStats
no_weekly = record {
  work_sessions = pos 0;
  short_breaks = pos 0;
  long_breaks = pos 0;
  work_time = pos 0;
  break_time = pos 0;
}

-- The weekday of a time depends on the location of the server, and so it is an argument.
-- `AddDate(0, 0, -k)` is k times 24 hours back, in a location whose clock does not change that week.
unfoldable pub get_weekly_stats : (weekday : Time → ℕ) → Time → StatisticsManager → WeeklyStats
unfolding weekly_loop
get_weekly_stats weekday now sm =
    let today = truncate_day now in
    weekly_loop (today - weekday today * day) no_weekly sm.session_history

unfoldable pub reset_statistics : StatisticsManager → StatisticsManager
reset_statistics sm = record {
  total_work_sessions = pos 0;
  total_short_breaks = pos 0;
  total_long_breaks = pos 0;
  total_work_time = pos 0;
  total_break_time = pos 0;
  total_session_time = pos 0;
  session_history = [];
}

unfoldable pub get_average_session_duration : StatisticsManager → Duration
get_average_session_duration sm =
    let total = add64 (add64 sm.total_work_sessions sm.total_short_breaks) sm.total_long_breaks in
    let average = div64 sm.total_session_time total in
    if leb_ℤ total (pos 0) && leb_ℤ (pos 0) total then pos 0 else average

module _ (fl : Float64) where
  open fl use {Float, of_int, div, mul}

  unfoldable pub get_productivity_score : StatisticsManager → Float
  get_productivity_score sm =
      let total = add64 (add64 sm.total_work_sessions sm.total_short_breaks) sm.total_long_breaks in
      if leb_ℤ total (pos 0) && leb_ℤ (pos 0) total
      then of_int (pos 0)
      else mul (div (of_int sm.total_work_sessions) (of_int total)) (of_int (pos 100))
