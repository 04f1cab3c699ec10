-- ===== src/Clock/Scheduling/Checks.antt =====
-- internal/clock/utils.go: the two validations of a schedule agree, and the summary counts.
use Prim.Native.String.{String}
use mathlib.Core.List.{Memᴰ}
use pomodoro_backend.Base.{
  ℕ, ◌+◌, ◌≡◌, ◌∙◌, ◌↔◌, refl, List, [], ◌∷◌, All, arith, none, some, Option-cases, inl, inr,
  if◌then◌else◌, map,
}
use pomodoro_backend.Clock.State.{ClockState, state_eq, clock_state_map, of_string}
use pomodoro_backend.Clock.Session.{SessionManager, set_schedule, find_invalid}
use pomodoro_backend.Clock.Scheduling.{
  Parsed, schedule, invalid_token, add_state, parse_tokens, parse_scheduling, split, strip,
  validate_schedule, find_fault, bump, summary_loop, get_schedule_summary,
}
use pomodoro_backend.Clock.Scheduling.RoundTrip.{IsNamed}

same_fault : (i : ℕ) (l : List ClockState) → (find_fault i l ≡ none) ↔ (find_invalid l ≡ none)
unfolding find_fault find_invalid
same_fault i [] = (λ h. refl, λ h. refl)
same_fault i (s ∷ l) =
    let (there, back) = same_fault (i + 1) l in (λ h. ground arith, λ h. ground arith)

-- `ClockUtils.ValidateSchedule` accepts exactly the lists that `SessionManager.SetSchedule` accepts.
validate_schedule_iff :
    (l : List ClockState) (sm : SessionManager)
    → (validate_schedule l ≡ none) ↔ ((set_schedule l sm).1 ≡ none)
unfolding validate_schedule set_schedule find_invalid
validate_schedule_iff [] sm = (λ h. cc, λ h. cc)
validate_schedule_iff (s ∷ l) sm =
    let (there, back) = same_fault 0 (s ∷ l) in (λ h. ground arith, λ h. ground arith)

-- The entries of a list that are a state.
abbrev pub occurrences : ClockState → List ClockState → ℕ
occurrences t [] = 0
occurrences t (s ∷ l) = (if state_eq s t then 1 else 0) + occurrences t l

summary_loop_lem :
    (summary : ClockState → ℕ) (l : List ClockState) (t : ClockState)
    → summary_loop summary l t ≡ summary t + occurrences t l
unfolding summary_loop
summary_loop_lem summary [] t = omega arith
summary_loop_lem summary (s ∷ l) t = ground (arith, summary_loop_lem (bump s summary) l t)

-- `GetScheduleSummary` counts for every state its entries in the schedule.
pub get_schedule_summary_counts :
    (l : List ClockState) (t : ClockState) → get_schedule_summary l t ≡ occurrences t l
unfolding get_schedule_summary
get_schedule_summary_counts l t = summary_loop_lem (λ _. 0) l t ∙ omega arith

token_state : (t : String) {c : ClockState} → clock_state_map t ≡ some c → IsNamed (of_string t)
unfolding of_string
token_state t h = ground arith

-- What a result of the parser says of the tokens of its text: every one names a state, and the
-- schedule holds these states in their order, or the token given back is one of them and names no state.
abbrev pub IsParsed : List String → Parsed → Type 0
IsParsed ts (schedule l) = All IsNamed l × (l ≡ map of_string ts)
IsParsed ts (invalid_token t) = (clock_state_map t ≡ none) × Memᴰ t ts

add_state-IsParsed :
    (t : String) (ts : List String) (c : ClockState) (p : Parsed)
    → IsNamed c
    → of_string t ≡ c
    → IsParsed ts p
    → IsParsed (t ∷ ts) (add_state c p)
add_state-IsParsed t ts c (schedule l) h e k = ((h, k.0), cc (e, k.1))
add_state-IsParsed t ts c (invalid_token u) h e k = (k.0, Memᴰ.tail k.1)

parse_tokens-IsParsed : (ts : List String) → IsParsed ts (parse_tokens ts)
unfolding parse_tokens
parse_tokens-IsParsed [] = (tt, refl)
parse_tokens-IsParsed (t ∷ ts) = elim (Option-cases (clock_state_map t)) [
  | inl e ↦ rw (e, parse_tokens) (e, Memᴰ.head refl)
  | inr (c, e) ↦
      rw (e, parse_tokens)
        (add_state-IsParsed t ts (of_string t) (parse_tokens ts) (token_state t e) refl
          (parse_tokens-IsParsed ts))
]

-- `ParseScheduling` gives the named states that the tokens between the dashes stand for, in their
-- order, or a token of the text that names no state.
parse_scheduling-IsParsed : (s : String) → IsParsed (split (strip s)) (parse_scheduling s)
unfolding parse_scheduling
parse_scheduling-IsParsed s = parse_tokens-IsParsed (split (strip s))
