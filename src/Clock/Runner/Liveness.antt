-- ===== src/Clock/Runner/Liveness.antt =====
-- internal/clock/clock_runner.go: a clock that is left alone gets round to every session.
use pomodoro_backend.Base.{
  ℕ, zero, suc, ◌+◌, ◌-◌, ◌%◌, ◌≤◌, ◌<◌, ◌≡◌, ◌∙◌, refl, ap, Bool-cases, leb, leb→le, inl, inr,
  List, [], ◌∷◌, arith, length,
}
use pomodoro_backend.Clock.Time.{Time}
use pomodoro_backend.Clock.Redis.{Redis}
use pomodoro_backend.Clock.Runner.{ClockRunner}
use pomodoro_backend.Clock.Runner.Phases.{running, phase}
use pomodoro_backend.Clock.Runner.Invariant.{IsCoherent}
use pomodoro_backend.Clock.Runner.Refine.{IsArmed}
use pomodoro_backend.Clock.Runner.Traces.{completions, completions_cycle}

-- The first values of a sequence.
unfoldable pub first : {A : Type 0} → ℕ → (ℕ → A) → List A
first zero f = []
first (suc m) f = f 0 ∷ first m (λ i. f (suc i))

length-first : {A : Type 0} (m : ℕ) (f : ℕ → A) → length (first m f) ≡ m
unfolding first
length-first zero f = refl
length-first (suc m) f = ground (arith, length-first m (λ i. f (suc i)))

mod_lt : (j n : ℕ) → j < n → j % n ≡ j
mod_lt j n h = grind arith

later : (k j n : ℕ) → j < n → k ≤ j → (k + (j - k)) % n ≡ j
later k j n hj h = let there : k + (j - k) ≡ j = omega arith in rw there (mod_lt j n hj)

sooner : (k j n : ℕ) → j < n → j < k → k < n → (k + (j + n - k)) % n ≡ j
sooner k j n hj h hk = let all : k + (j + n - k) ≡ j + n = omega arith in rw all (grind arith)

-- How far it is from one place of a round to another.
distance : (k j n : ℕ) → k < n → j < n → (m : ℕ) × (m < n) × ((k + m) % n ≡ j)
distance k j n hk hj = elim (Bool-cases (leb k j)) [
  | inl h ↦ (j - k, ground arith, later k j n hj (leb→le k j h))
  | inr h ↦ (j + n - k, ground arith, ground (arith, sooner k j n hj))
]

module _ (r : Redis) where
  open r use {Store}

  -- A coherent, armed clock that runs a session of its schedule gets to each session of the schedule
  -- after fewer completed sessions than the schedule has, whenever the sessions are completed.
  pub every_session_comes :
      (times : ℕ → Time) (k j : ℕ) (cr : ClockRunner Store)
      → IsCoherent cr
      → IsArmed cr
      → phase cr ≡ running k
      → k < length cr.session_manager.schedule
      → j < length cr.session_manager.schedule
      → (m : ℕ) × (m < length cr.session_manager.schedule)
        × (phase (completions r (first m times) cr) ≡ running j)
  every_session_comes times k j cr h a p hk hj =
      let n = length cr.session_manager.schedule in
      let (m, within, there) = distance k j n hk hj in
      (
        m,
        within,
        completions_cycle r (first m times) k cr h a p hk
            ∙ ap (λ l. running ((k + l) % n)) (length-first m times)
            ∙ ap running there,
      )
