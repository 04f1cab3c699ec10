-- ===== src/Clock/State.antt =====
-- internal/clock/state.go and the states of internal/clock/clock_runner.go.
pub mod Transitions
use text.Mathlib.Text.{◌==◌ as str_eq}
use pomodoro_backend.Base.{
  String, Bool, true, false, not, ◌||◌, ◌&&◌, Option, none, some, if◌then◌else◌,
}

-- Go's `ClockState` is a string type. The five named values are constructors, and `other` holds
-- any string that is none of their texts.
pub data ClockState : Type 0 where
  idle working short_break long_break paused : ClockState
  other : String → ClockState

-- `ClockStateMap[token]`
abbrev pub clock_state_map : String → Option ClockState
clock_state_map s =
    if str_eq s "I"
    then some idle
    else if str_eq s "W"
    then some working
    else if str_eq s "SB"
    then some short_break
    else if str_eq s "LB"
    then some long_break
    else if str_eq s "P"
    then some paused
    else none

-- The conversion `ClockState(s)`, which keeps the text.
unfoldable pub of_string : String → ClockState
of_string s = elim (clock_state_map s) [ none ↦ other s | some c ↦ c ]

-- The conversion `string(state)`
unfoldable pub to_string : ClockState → String
to_string idle = "I"
to_string working = "W"
to_string short_break = "SB"
to_string long_break = "LB"
to_string paused = "P"
to_string (other s) = s

-- Go's `==` on two states.
abbrev pub state_eq : ClockState → ClockState → Bool
state_eq idle idle = true
state_eq working working = true
state_eq short_break short_break = true
state_eq long_break long_break = true
state_eq paused paused = true
state_eq (other s) (other t) = str_eq s t
state_eq _ _ = false

-- The test `state == StateWorking || state == StateShortBreak || state == StateLongBreak`
abbrev pub is_session_state : ClockState → Bool
is_session_state s = state_eq s working || state_eq s short_break || state_eq s long_break

pub record StateManager : Type 0 where
  pub state : ClockState

unfoldable pub new_state_manager : StateManager
new_state_manager = record { state = idle }

abbrev pub get_state : StateManager → ClockState
get_state sm = sm.state

unfoldable pub set_state : ClockState → StateManager → StateManager
set_state s sm = record sm { state = s }

unfoldable pub is_idle : StateManager → Bool
is_idle sm = state_eq (get_state sm) idle

unfoldable pub is_running : StateManager → Bool
is_running sm = is_session_state (get_state sm)

unfoldable pub is_paused : StateManager → Bool
is_paused sm = state_eq (get_state sm) paused

unfoldable pub can_start : StateManager → Bool
can_start sm = let s = get_state sm in state_eq s idle || state_eq s paused

unfoldable pub can_pause : StateManager → Bool
unfolding is_running
can_pause sm = is_running sm

unfoldable pub can_stop : StateManager → Bool
unfolding is_idle
can_stop sm = not (is_idle sm)

unfoldable pub can_skip : StateManager → Bool
unfolding is_running is_paused
can_skip sm = is_running sm || is_paused sm

-- The errors of `ValidateTransition`
pub data TransitionError : Type 0 where
  cannot_transition : (from to : ClockState) → TransitionError
  cannot_pause : (from : ClockState) → TransitionError
  invalid_state : (to : ClockState) → TransitionError

-- The case of `ValidateTransition` for the states of a session.
enter_session : StateManager → ClockState → Option TransitionError
enter_session sm to =
    let current = get_state sm in
    if not (state_eq current idle) && not (state_eq current paused)
    then some (cannot_transition current to)
    else none

-- `none` is the result `nil`.
unfoldable pub validate_transition : StateManager → ClockState → Option TransitionError
unfolding enter_session is_running
validate_transition sm idle = none
validate_transition sm working = enter_session sm working
validate_transition sm short_break = enter_session sm short_break
validate_transition sm long_break = enter_session sm long_break
validate_transition sm paused =
    if not (is_running sm) then some (cannot_pause (get_state sm)) else none
validate_transition sm (other s) = some (invalid_state (other s))
