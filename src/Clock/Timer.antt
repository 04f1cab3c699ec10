-- ===== src/Clock/Timer.antt =====
-- internal/clock/timer.go: the timer of a session.
pub mod Countdown
pub mod Coherent
use pomodoro_backend.Base.{
  ℕ, ◌-◌, Bool, true, false, not, Option, none, some, if◌then◌else◌, ℤ, pos, leb_ℤ, sub64, ◌-ℤ◌,
}
use pomodoro_backend.Clock.Time.{Duration, Time, is_zero, time_sub, time_add}
use pomodoro_backend.Clock.State.{ClockState, other}

-- The two closures that the program installs as `onComplete`: that of `startNewSession`, which
-- holds the duration of the session, and that of `startTimerWithCallbacks`.
pub data Completion : Type 0 where
  new_session : Duration → Completion
  resumed_session : Completion

-- `timer` holds the time at which the function given to `time.AfterFunc` is called. Of `ticker`
-- and `cancel` it counts whether they are set, and of `onTick` whether there is one.
pub record TimerManager : Type 0 where
  pub timer : Option Time
  pub ticker : Bool
  pub cancel : Bool
  pub start_time : Time
  pub pause_time : Time
  pub time_remaining : Duration
  pub session_duration : Duration
  pub current_state : ClockState
  pub on_tick : Bool
  pub on_complete : Option Completion
  pub is_completing : Bool

-- Go's zero values.
unfoldable pub new_timer_manager : TimerManager
new_timer_manager = record {
  timer = none;
  ticker = false;
  cancel = false;
  start_time = 0;
  pause_time = 0;
  time_remaining = pos 0;
  session_duration = pos 0;
  current_state = other "";
  on_tick = false;
  on_complete = none;
  is_completing = false;
}

-- `stopTimer`, and `StopTimer`, which calls it under the lock.
unfoldable pub stop_timer : TimerManager → TimerManager
stop_timer tm = record tm { timer = none; ticker = false; cancel = false; is_completing = false }

-- Each method reads the clock once, at `now`.
unfoldable pub start_timer : Time → Duration → ClockState → Completion → TimerManager → TimerManager
unfolding stop_timer
start_timer now duration state on_complete tm = record (stop_timer tm) {
  session_duration = duration;
  current_state = state;
  time_remaining = duration;
  start_time = now;
  on_tick = true;
  on_complete = some on_complete;
  is_completing = false;
  cancel = true;
  timer = some (time_add now duration);
  ticker = true;
}

-- `getTimeRemainingLocked`, and `GetTimeRemaining`, which has the same body.
unfoldable pub get_time_remaining : Time → TimerManager → Duration
get_time_remaining now tm =
    let elapsed = time_sub now tm.start_time in
    elim tm.timer [
      | none ↦ tm.time_remaining
      | some _ ↦
          if leb_ℤ tm.session_duration elapsed then pos 0 else sub64 tm.session_duration elapsed
    ]

unfoldable pub pause_timer : Time → TimerManager → TimerManager × Duration
unfolding get_time_remaining stop_timer
pause_timer now tm =
    let left = get_time_remaining now tm in
    let held = record tm { time_remaining = left; pause_time = now } in
    elim tm.timer [ none ↦ (tm, tm.time_remaining) | some _ ↦ (stop_timer held, left) ]

-- The start time that `ResumeTimer` sets, `time.Now().Add(-time.Since(pauseTime))`.
abbrev pub resumed_start : Time → TimerManager → Time
resumed_start now tm =
    if not (is_zero tm.pause_time) then time_add now (pos 0 -ℤ time_sub now tm.pause_time) else now

unfoldable pub resume_timer : Time → TimerManager → TimerManager
unfolding stop_timer
resume_timer now tm = if leb_ℤ tm.time_remaining (pos 0) then tm else record (stop_timer tm) {
  cancel = true;
  start_time = resumed_start now tm;
  session_duration = tm.time_remaining;
  timer = some (time_add now tm.time_remaining);
  ticker = true;
}

abbrev pub has_timer : Option Time → Bool
has_timer none = false
has_timer (some _) = true

unfoldable pub timer_is_running : TimerManager → Bool
timer_is_running tm = has_timer tm.timer

-- `handleSessionComplete` before its callback.
unfoldable pub complete_begin : TimerManager → TimerManager
complete_begin tm = record tm { is_completing = true; ticker = false; cancel = false }

-- `handleSessionComplete` behind its callback: the timer is cleared only if none was started.
unfoldable pub complete_end : TimerManager → TimerManager
complete_end tm =
    if tm.is_completing
    then record tm { timer = none; time_remaining = pos 0; is_completing = false }
    else tm
