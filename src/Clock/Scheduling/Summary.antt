-- ===== src/Clock/Scheduling/Summary.antt =====
-- internal/clock/utils.go: the summary of a schedule against the count of its entries.
use mathlib.Core.Nat.{suc}
use mathlib.Core.Nat as Core
use mathlib.Core.Logic.{ite}
use mathlib.Core.List.{count}
use native.Mathlib.Bridge.{from_ℕ}
use text.Mathlib.TextEquality.{eq_iff}
use pomodoro_backend.Base.{
  ◌+◌, ◌≡◌, ◌∙◌, refl, sym, ap, List, [], ◌∷◌, arith, inl, inr, true, false, Bool-cases,
  if◌then◌else◌,
}
use pomodoro_backend.Clock.State.{
  ClockState, state_eq, idle, working, short_break, long_break, paused, other,
}
use pomodoro_backend.Clock.Scheduling.{get_schedule_summary}
use pomodoro_backend.Clock.Scheduling.Checks.{occurrences, get_schedule_summary_counts}

state_eq_refl : (s : ClockState) → state_eq s s ≡ true
state_eq_refl idle = refl
state_eq_refl working = refl
state_eq_refl short_break = refl
state_eq_refl long_break = refl
state_eq_refl paused = refl
state_eq_refl (other s) = (eq_iff s s).1 refl

pub state_eq_sound : (s t : ClockState) → state_eq s t ≡ true → s ≡ t
state_eq_sound idle t h = ground arith
state_eq_sound working t h = ground arith
state_eq_sound short_break t h = ground arith
state_eq_sound long_break t h = ground arith
state_eq_sound paused t h = ground arith
state_eq_sound (other s) (other t) h = ap other ((eq_iff s t).0 h)
state_eq_sound (other s) t h = ground arith

pub different : (s t : ClockState) → state_eq s t ≡ false → ¬ (s ≡ t)
different s t e h = ground (arith, state_eq_refl s)

abbrev pub dec : (s t : ClockState) → Dec (s ≡ t)
dec s t = elim (Bool-cases (state_eq s t)) [
  | inl e ↦ yes (state_eq_sound s t e)
  | inr e ↦ no (different s t e)
]

counted :
    (s t : ClockState) (d : Dec (s ≡ t)) (n : Core.ℕ)
    → from_ℕ (ite d (suc n) n) ≡ (if state_eq s t then 1 else 0) + from_ℕ n
counted s t (yes e) n = ground (arith, state_eq_refl s)
counted s t (no h) n = ground (arith, state_eq_sound s t)

count-occurrences :
    (t : ClockState) (l : List ClockState) → from_ℕ (count dec t l) ≡ occurrences t l
count-occurrences t [] = refl
count-occurrences t (s ∷ l) =
    counted s t (dec s t) (count dec t l) ∙ omega (arith, count-occurrences t l)

-- The summary of a schedule has, for every state, the number of its entries that are this state,
-- as the library counts them by the equality of states.
pub get_schedule_summary-count :
    (l : List ClockState) (t : ClockState) → get_schedule_summary l t ≡ from_ℕ (count dec t l)
get_schedule_summary-count l t = get_schedule_summary_counts l t ∙ sym (count-occurrences t l)
