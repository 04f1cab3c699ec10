-- ===== src/Clock/Timer/Countdown.antt =====
-- internal/clock/timer.go: what the timer says is left of a session.
use pomodoro_backend.Base.{
  ℕ, ◌+◌, ◌-◌, ◌≤◌, ◌<◌, ◌≡◌, refl, ap, false, some, arith, pos, ◌-ℤ◌, ◌+ℤ◌, half_range, sub64,
  wrap64_id, sat64_id,
}
use pomodoro_backend.Clock.Time.{Time, time_sub, time_add}
use pomodoro_backend.Clock.State.{ClockState}
use pomodoro_backend.Clock.Timer.{
  Completion, TimerManager, start_timer, get_time_remaining, pause_timer, resume_timer,
  timer_is_running,
}

-- Two times at most 292 years apart.
pub time_sub_near : (t u : Time) → t ≤ u → u - t < half_range → time_sub u t ≡ pos (u - t)
unfolding time_sub
time_sub_near t u le near = ground (arith, sat64_id (pos (u - t)))

sub64_near : (d e : ℕ) → e ≤ d → d < half_range → sub64 (pos d) (pos e) ≡ pos (d - e)
unfolding sub64 ◌-ℤ◌
sub64_near d e le near = ground (arith, wrap64_id (pos (d - e)))

time_back : (t u : Time) → t ≤ u → time_add u (pos 0 -ℤ pos (u - t)) ≡ t
unfolding time_add ◌-ℤ◌ ◌+ℤ◌
time_back t u le = ground arith

pub time_forth : (t : Time) (d : ℕ) → time_add t (pos d) ≡ t + d
unfolding time_add ◌+ℤ◌
time_forth t d = ground arith

-- The reading of a running timer.
reading :
    (s u : Time) (d : ℕ) (tm : TimerManager) {deadline : Time}
    → tm.timer ≡ some deadline
    → tm.session_duration ≡ pos d
    → tm.start_time ≡ s
    → s ≤ u
    → u - s < half_range
    → d < half_range
    → get_time_remaining u tm ≡ pos (d - (u - s))
unfolding get_time_remaining
reading s u d tm e session from le near fits =
    ground (arith, time_sub_near s u le near, sub64_near d (u - s))

resumed :
    (left : ℕ) (pause now : Time) (tm : TimerManager)
    → tm.time_remaining ≡ pos left
    → tm.pause_time ≡ pause
    → 0 < pause
    → pause ≤ now
    → now - pause < half_range
    → 0 < left
    → ((resume_timer now tm).timer ≡ some (now + left))
      × ((resume_timer now tm).session_duration ≡ pos left)
      × ((resume_timer now tm).start_time ≡ pause)
unfolding resume_timer
resumed left pause now tm r p known le near some_left =
    ground (arith, time_sub_near pause now le near, time_back pause now le, time_forth now left)

module _ (start : Time) (d : ℕ) (state : ClockState) (done : Completion) (tm : TimerManager)
    (fits : d < half_range) where
  abbrev started : TimerManager
  started = start_timer start (pos d) state done tm

  -- A timer started for d nanoseconds, with d below 2 ^ 63, says, at a time t not before the start,
  -- that d less the time since then is left, and 0 once d has passed; it is due d after the start.
  -- The times are fewer than 2 ^ 63 nanoseconds apart.
  pub start_timer-countdown :
      (t : Time)
      → start ≤ t
      → t - start < half_range
      → (get_time_remaining t started ≡ pos (d - (t - start))) × (started.timer ≡ some (start + d))
  unfolding start_timer
  start_timer-countdown t le near =
      (reading start t d started refl refl refl le near fits, ap some (time_forth start d))

  module _ (pause : Time) (le : start ≤ pause) (near : pause - start < half_range) where
    abbrev held : TimerManager
    held = (pause_timer pause started).0

    pause_timer_left : (pause_timer pause started).1 ≡ pos (d - (pause - start))
    unfolding pause_timer start_timer
    pause_timer_left = reading start pause d started refl refl refl le near fits

    -- A timer started for d nanoseconds and paused at a time p, not before the start, is not
    -- running, and says at every later reading what was left at p, which is also what `PauseTimer`
    -- returns. Here d and the time up to p are below 2 ^ 63 nanoseconds.
    pause_timer_freezes :
        (t : Time)
        → (get_time_remaining t held ≡ pos (d - (pause - start)))
          × ((pause_timer pause started).1 ≡ pos (d - (pause - start)))
          × (timer_is_running held ≡ false)
    unfolding pause_timer start_timer timer_is_running get_time_remaining
    pause_timer_freezes t = (pause_timer_left, pause_timer_left, refl)

    module _ (resume : Time) (later : pause ≤ resume) (close : resume - start < half_range)
        (known : 0 < pause) (left : pause - start < d) where
      abbrev back : TimerManager
      back = resume_timer resume held

      back_lem :
          (back.timer ≡ some (resume + (d - (pause - start))))
          × (back.session_duration ≡ pos (d - (pause - start)))
          × (back.start_time ≡ pause)
      unfolding pause_timer start_timer
      back_lem =
          resumed (d - (pause - start)) pause resume held pause_timer_left refl known later
            (omega arith) (omega arith)

      -- The readings after a resume go on from the time of the pause, while the timer is due when
      -- what was left at the pause has passed since the resume: with a pause of k nanoseconds the
      -- readings are k too small. The conditions are that some time was left at the pause, that the
      -- pause is not at Go's zero time, and that d and the times since the start are below 2 ^ 63
      -- nanoseconds.
      pub resume_timer_counts_pause :
          (t : Time)
          → resume ≤ t
          → t - start < half_range
          → (back.timer ≡ some (resume + (d - (pause - start))))
            × (get_time_remaining t back ≡ pos (d - (pause - start) - (t - pause)))
      resume_timer_counts_pause t after close_t =
          let (due, session, from) = back_lem in
          (
            due,
            reading pause t (d - (pause - start)) back due session from (omega arith) (omega arith)
                (omega arith),
          )
