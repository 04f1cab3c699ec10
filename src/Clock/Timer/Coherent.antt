-- ===== src/Clock/Timer/Coherent.antt =====
-- internal/clock/timer.go: the timer, its ticker and its context are set and cleared together.
use pomodoro_backend.Base.{◌≡◌, false, arith}
use pomodoro_backend.Clock.Time.{Time, Duration}
use pomodoro_backend.Clock.State.{ClockState}
use pomodoro_backend.Clock.Timer.{
  Completion, TimerManager, new_timer_manager, start_timer, pause_timer, resume_timer, stop_timer,
  has_timer,
}

-- Outside of `handleSessionComplete`.
pub record IsSettled (tm : TimerManager) : Type 0 where
  pub ticking : tm.ticker ≡ has_timer tm.timer
  pub cancellable : tm.cancel ≡ has_timer tm.timer
  pub quiet : tm.is_completing ≡ false

pub new_timer_manager-IsSettled : IsSettled new_timer_manager
unfolding new_timer_manager
new_timer_manager-IsSettled = ground arith

pub start_timer-IsSettled :
    (now : Time) (d : Duration) (s : ClockState) (c : Completion) (tm : TimerManager)
    → IsSettled (start_timer now d s c tm)
unfolding start_timer
start_timer-IsSettled now d s c tm = ground arith

pub stop_timer-IsSettled : (tm : TimerManager) → IsSettled (stop_timer tm)
unfolding stop_timer
stop_timer-IsSettled tm = ground arith

pub pause_timer-IsSettled :
    (now : Time) (tm : TimerManager) → IsSettled tm → IsSettled (pause_timer now tm).0
unfolding pause_timer
pause_timer-IsSettled now tm h = ground arith

pub resume_timer-IsSettled :
    (now : Time) (tm : TimerManager) → IsSettled tm → IsSettled (resume_timer now tm)
unfolding resume_timer
resume_timer-IsSettled now tm h = ground arith
