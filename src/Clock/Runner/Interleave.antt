-- ===== src/Clock/Runner/Interleave.antt =====
-- internal/clock/timer.go, callbacks.go and clock_runner.go: completions step by step. The function
-- of the timer runs without the lock of the clock, and takes the locks of its parts one after the
-- other: methods and other completions come in between. It is called while there is a timer, but it
-- may wait for the lock of the timer while a method stops this timer. A method of the clock is one
-- step, and so is a save: what comes between their own parts is left out.
pub mod Alone
pub mod Methods
pub mod Safety
pub mod Undone
use pomodoro_backend.Base.{
  ◌≡◌, ◌≢◌, Bool, true, false, Option, none, some, List, [], ◌∷◌, ◌++◌, if◌then◌else◌,
}
use pomodoro_backend.Clock.Time.{Time, Duration}
use pomodoro_backend.Clock.State.{ClockState, idle, set_state}
use pomodoro_backend.Clock.Session.{
  get_current_session_state, get_current_session_duration, next_session,
}
use pomodoro_backend.Clock.Stats.{record_session}
use pomodoro_backend.Clock.Timer.{Completion, new_session, resumed_session, start_timer}
use pomodoro_backend.Clock.Redis.{Redis}
use pomodoro_backend.Clock.Runner.{ClockRunner, new_clock_runner, notify_state, notify_complete}
use pomodoro_backend.Clock.Runner.Persist.{save_state}
use pomodoro_backend.Clock.Runner.Control.{begin_completion, end_completion}
use pomodoro_backend.Clock.Runner.Phases.{Op, complete_op, run_op}

-- How far a completion has come: it waits for the lock of the timer; its callback is called for a
-- state that is over, which has the duration of the session; the session is recorded; there was no
-- next session, or the clock was moved to it; `startNewSession` has read its state, and its
-- duration; it has set the state; it has started the timer; the callback of a new session is about
-- to save once more; the callback has returned.
pub data Stage : Type 0 where
  waiting : Stage
  called : Option Completion → ClockState → Stage
  measured : Duration → (again : Bool) → ClockState → Stage
  recorded : (again : Bool) → Stage
  ended : (again : Bool) → Stage
  moved : (again : Bool) → Stage
  picked : ClockState → (again : Bool) → Stage
  chosen : ClockState → Duration → (again : Bool) → Stage
  entered : ClockState → Duration → (again : Bool) → Stage
  armed : ClockState → (again : Bool) → Stage
  saving : Stage
  returned : Stage

-- The end of a callback.
abbrev pub last : (again : Bool) → Stage
last again = if again then saving else returned

module _ (r : Redis) where
  open r use {Store}

  -- The next step of a completion, and the stage behind it, which is `none` at its end.
  unfoldable pub proceed : Time → Stage → ClockRunner Store → ClockRunner Store × Option Stage
  unfolding begin_completion end_completion
  proceed now waiting cr = (
    begin_completion cr,
    some (called cr.timer_manager.on_complete cr.timer_manager.current_state),
  )
  proceed now (called none done) cr = (cr, some returned)
  proceed now (called (some (new_session duration)) done) cr =
      (cr, some (measured duration true done))
  proceed now (called (some resumed_session) done) cr =
      (cr, some (measured (get_current_session_duration cr.session_manager) false done))
  proceed now (measured duration again done) cr = (
    notify_complete done
        (record cr { stats_manager = record_session now done duration cr.stats_manager }),
    some (recorded again),
  )
  proceed now (recorded again) cr =
      let (sessions, more) = next_session cr.session_manager in
      (record cr { session_manager = sessions }, some (if more then moved again else ended again))
  proceed now (ended again) cr = (
    notify_state idle (record cr { state_manager = set_state idle cr.state_manager }),
    some (last again),
  )
  proceed now (moved again) cr =
      (cr, some (picked (get_current_session_state cr.session_manager) again))
  proceed now (picked state again) cr =
      (cr, some (chosen state (get_current_session_duration cr.session_manager) again))
  proceed now (chosen state duration again) cr = (
    record cr { state_manager = set_state state cr.state_manager },
    some (entered state duration again),
  )
  proceed now (entered state duration again) cr = (
    record cr {
      timer_manager = start_timer now duration state (new_session duration) cr.timer_manager;
    },
    some (armed state again),
  )
  proceed now (armed state again) cr = (save_state r now (notify_state state cr), some (last again))
  proceed now saving cr = (save_state r now cr, some returned)
  proceed now returned cr = (end_completion cr, none)

  -- A clock, and the completions that are under way.
  pub record System : Type 0 where
    pub clock : ClockRunner Store
    pub flights : List Stage

  abbrev pub stages : Option Stage → List Stage
  stages none = []
  stages (some s) = s ∷ []

  -- A method of the user; the timer's function is called while there is a timer; or a completion
  -- goes one step further.
  pub data Step (s : System) : System → Type 0 where
    call :
        (op : Op) (now : Time)
        → op ≢ complete_op
        → Step s (record { clock = (run_op r op now s.clock).0; flights = s.flights })
    fire :
        (due : Time)
        → s.clock.timer_manager.timer ≡ some due
        → Step s (record { clock = s.clock; flights = waiting ∷ s.flights })
    go_on :
        (now : Time) (before after : List Stage) (stage : Stage)
        → s.flights ≡ before ++ (stage ∷ after)
        → Step s (record {
          clock = (proceed now stage s.clock).0;
          flights = before ++ (stages (proceed now stage s.clock).1 ++ after);
        })

  -- What a new clock gets to.
  pub data Reach (store : Option Store) : System → Type 0 where
    fresh : Reach store (record { clock = new_clock_runner store; flights = [] })
    later : {s t : System} → Reach store s → Step s t → Reach store t
