-- ===== src/Clock/Runner.antt =====
-- internal/clock/clock_runner.go and callbacks.go: the clock over its parts, with the saving of its
-- state by internal/clock/persistence_manager.go.
pub mod Persist
pub mod Access
pub mod Control
pub mod Phases
pub mod Invariant
pub mod Outcomes
pub mod Refine
pub mod Armed
pub mod Traces
pub mod Races
pub mod Liveness
pub mod Interleave
use pomodoro_backend.Base.{Bool, true, false, Option, none, some, List, [], ◌∷◌, if◌then◌else◌}
use pomodoro_backend.Clock.Time.{Duration}
use pomodoro_backend.Clock.State.{ClockState, StateManager, new_state_manager}
use pomodoro_backend.Clock.Session.{SessionManager, new_session_manager}
use pomodoro_backend.Clock.Stats.{StatisticsManager, new_statistics_manager}
use pomodoro_backend.Clock.Timer.{TimerManager, new_timer_manager}

-- Which callbacks `SetCallbacks` was given.
pub record Callbacks : Type 0 where
  pub on_state_change : Bool
  pub on_tick : Bool
  pub on_complete : Bool

-- A call of one of them.
pub data Notice : Type 0 where
  state_changed : ClockState → Notice
  ticked : Duration → Notice
  completed : ClockState → Notice

-- `redis_persistence` is nil or what the Redis store holds. `saver` says whether the ticker and the
-- channel of the periodic save are set. The calls of the callbacks are kept, the latest first.
pub record ClockRunner (Store : Type 0) : Type 0 where
  pub state_manager : StateManager
  pub session_manager : SessionManager
  pub timer_manager : TimerManager
  pub stats_manager : StatisticsManager
  pub redis_persistence : Option Store
  pub saver : Bool
  pub callbacks : Callbacks
  pub notices : List Notice

abbrev no_callbacks : Callbacks
no_callbacks = record { on_state_change = false; on_tick = false; on_complete = false }

-- The fields that `NewClockRunner` and `NewClockRunnerWithRedis` set.
unfoldable pub new_clock_runner : {Store : Type 0} → Option Store → ClockRunner Store
new_clock_runner store = record {
  state_manager = new_state_manager;
  session_manager = new_session_manager;
  timer_manager = new_timer_manager;
  stats_manager = new_statistics_manager;
  redis_persistence = store;
  saver = false;
  callbacks = no_callbacks;
  notices = [];
}

-- The errors of the methods.
pub data RunnerError : Type 0 where
  not_startable not_running already_idle not_skippable : RunnerError

module _ {Store : Type 0} where
  unfoldable pub set_callbacks : Callbacks → ClockRunner Store → ClockRunner Store
  set_callbacks given cr = record cr { callbacks = given }

  abbrev pub notify_state : ClockState → ClockRunner Store → ClockRunner Store
  notify_state s cr = record cr {
    notices = if cr.callbacks.on_state_change then state_changed s ∷ cr.notices else cr.notices;
  }

  abbrev pub notify_tick : Duration → ClockRunner Store → ClockRunner Store
  notify_tick d cr = record cr {
    notices = if cr.callbacks.on_tick then ticked d ∷ cr.notices else cr.notices;
  }

  abbrev pub notify_complete : ClockState → ClockRunner Store → ClockRunner Store
  notify_complete s cr = record cr {
    notices = if cr.callbacks.on_complete then completed s ∷ cr.notices else cr.notices;
  }

  -- The ticker, the channel and the goroutine that reads them.
  unfoldable pub stop_save_state : ClockRunner Store → ClockRunner Store
  stop_save_state cr = record cr { saver = false }

  unfoldable pub run_save_state : ClockRunner Store → ClockRunner Store
  unfolding stop_save_state
  run_save_state cr = record (stop_save_state cr) { saver = true }
