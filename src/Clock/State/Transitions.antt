-- ===== src/Clock/State/Transitions.antt =====
-- internal/clock/state.go: which transitions are valid, and the text of a state.
use text.Mathlib.TextEquality.{eq_iff}
use pomodoro_backend.Base.{String, ◌≡◌, refl, ◌↔◌, ◌⊎◌, true, none, arith}
use pomodoro_backend.Clock.State.{
  ClockState, idle, working, short_break, long_break, paused, other, of_string, to_string,
  is_session_state, StateManager, validate_transition,
}

-- The diagram of the valid transitions: back to idle from anywhere, into a session from a rest,
-- and a pause from a session.
pub data Allowed : ClockState → ClockState → Type 0 where
  to_idle : (from : ClockState) → Allowed from idle
  begin : (to : ClockState) → is_session_state to ≡ true → Allowed idle to
  continue : (to : ClockState) → is_session_state to ≡ true → Allowed paused to
  pause : (from : ClockState) → is_session_state from ≡ true → Allowed from paused

pub validate_transition_sound :
    (sm : StateManager) (to : ClockState) → validate_transition sm to ≡ none → Allowed sm.state to
unfolding validate_transition
validate_transition_sound sm to h = grind (arith, to_idle, begin, continue, pause)

pub validate_transition_complete :
    (sm : StateManager) (from to : ClockState)
    → sm.state ≡ from
    → Allowed from to
    → validate_transition sm to ≡ none
unfolding validate_transition
validate_transition_complete sm from to e (to_idle _) = refl
validate_transition_complete sm from to e (begin _ s) = ground arith
validate_transition_complete sm from to e (continue _ s) = ground arith
validate_transition_complete sm from to e (pause _ s) = ground arith

-- `ValidateTransition` returns nil exactly for the transitions of the diagram `Allowed`.
validate_transition_iff :
    (sm : StateManager) (to : ClockState) → (validate_transition sm to ≡ none) ↔ Allowed sm.state to
validate_transition_iff sm to =
    (validate_transition_sound sm to, validate_transition_complete sm sm.state to refl)

-- The text of `ClockState(s)` is `s`, for every string.
pub to_string-of_string : (s : String) → to_string (of_string s) ≡ s
unfolding to_string of_string
to_string-of_string s =
    ground (arith, eq_iff s "I", eq_iff s "W", eq_iff s "SB", eq_iff s "LB", eq_iff s "P")

-- The five named states are read back from their texts.
pub of_string-to_string :
    (c : ClockState)
    → (c ≡ idle) ⊎ (c ≡ paused) ⊎ (is_session_state c ≡ true)
    → of_string (to_string c) ≡ c
unfolding to_string of_string
of_string-to_string idle h = refl
of_string-to_string working h = refl
of_string-to_string short_break h = refl
of_string-to_string long_break h = refl
of_string-to_string paused h = refl
of_string-to_string (other s) h = ground arith
