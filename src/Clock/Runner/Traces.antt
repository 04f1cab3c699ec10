-- ===== src/Clock/Runner/Traces.antt =====
-- internal/clock/clock_runner.go: whole lives of a clock, as lists of calls.
use native.Mathlib.Nat.{mod-add-mod}
use pomodoro_backend.Base.{
  ℕ, suc, ◌+◌, ◌%◌, ◌<◌, ◌≡◌, ◌∙◌, ap, inl, Option, some, List, [], ◌∷◌, arith, length,
}
use pomodoro_backend.Clock.Time.{Time}
use pomodoro_backend.Clock.Session.{next_session}
use pomodoro_backend.Clock.Redis.{Redis}
use pomodoro_backend.Clock.Runner.{ClockRunner, new_clock_runner}
use pomodoro_backend.Clock.Runner.Control.{
  on_complete, on_resumed_complete, run_completion, begin_completion, end_completion, complete,
}
use pomodoro_backend.Clock.Runner.Phases.{
  Phase, running, Op, complete_op, contract, phase, run_op, outcome,
}
use pomodoro_backend.Clock.Runner.Invariant.{
  IsCoherent, new_clock_runner-IsCoherent, run_op-IsCoherent,
}
use pomodoro_backend.Clock.Runner.Refine.{IsArmed, run_op-refines}
use pomodoro_backend.Clock.Runner.Armed.{IsResumable, run_op-IsArmed}

count_round : (k m n : ℕ) → ((k + 1) % n + m) % n ≡ (k + suc m) % n
count_round k m n = mod-add-mod (k + 1) n m ∙ ap (λ t. t % n) (omega arith)

in_round : (k n : ℕ) → k < n → k ≡ (k + 0) % n
in_round k n h = grind arith

round_lt : (k n : ℕ) → k < n → (k + 1) % n < n
round_lt k n h = omega arith

module _ (r : Redis) where
  open r use {Store}

  -- A list of calls, each with the time at which it is made; errors are not looked at.
  unfoldable pub run_ops : List (Op × Time) → ClockRunner Store → ClockRunner Store
  run_ops [] cr = cr
  run_ops ((op, now) ∷ ops) cr = run_ops ops (run_op r op now cr).0

  run_ops_from-IsCoherent :
      (ops : List (Op × Time)) (cr : ClockRunner Store)
      → IsCoherent cr
      → IsCoherent (run_ops ops cr)
  unfolding run_ops
  run_ops_from-IsCoherent [] cr h = h
  run_ops_from-IsCoherent ((op, now) ∷ ops) cr h =
      run_ops_from-IsCoherent ops (run_op r op now cr).0 (run_op-IsCoherent r op now cr h)

  -- A new clock stays coherent under any calls at any times, with or without Redis: its position
  -- stays inside the schedule, its state is idle, paused or that of the current session, and no
  -- timer runs in an idle or a paused clock.
  pub run_ops-IsCoherent :
      (store : Option Store) (ops : List (Op × Time))
      → IsCoherent (run_ops ops (new_clock_runner store))
  run_ops-IsCoherent store ops =
      run_ops_from-IsCoherent ops (new_clock_runner store) (new_clock_runner-IsCoherent store)

  -- Sessions that are completed one after the other.
  unfoldable pub completions : List Time → ClockRunner Store → ClockRunner Store
  completions [] cr = cr
  completions (now ∷ later) cr = completions later (run_op r complete_op now cr).0

  completion_outcome :
      (now : Time) (cr : ClockRunner Store) (p : Phase)
      → outcome (run_op r complete_op now cr) ≡ some p
      → phase (run_op r complete_op now cr).0 ≡ p
  unfolding run_op
  completion_outcome now cr p h = ground arith

  completion-schedule :
      (now : Time) (cr : ClockRunner Store)
      → (run_op r complete_op now cr).0.session_manager.schedule ≡ cr.session_manager.schedule
  unfolding run_op complete begin_completion end_completion run_completion on_complete
      on_resumed_complete next_session
  completion-schedule now cr = ground arith

  -- The state of a running clock is not paused.
  running-IsResumable : (cr : ClockRunner Store) (k : ℕ) → phase cr ≡ running k → IsResumable r cr
  running-IsResumable cr k h = inl (λ p. ground arith)

  -- From a coherent, armed clock that runs in session k, as many completed sessions as the list has
  -- times lead to the session that many further on, counted round the schedule.
  pub completions_cycle :
      (times : List Time) (k : ℕ) (cr : ClockRunner Store)
      → IsCoherent cr
      → IsArmed cr
      → phase cr ≡ running k
      → k < length cr.session_manager.schedule
      → phase (completions times cr)
        ≡ running ((k + length times) % length cr.session_manager.schedule)
  unfolding completions
  completions_cycle [] k cr h a p lt =
      p ∙ ap running (in_round k (length cr.session_manager.schedule) lt)
  completions_cycle (now ∷ later) k cr h a p lt =
      let n = length cr.session_manager.schedule in
      let next = (run_op r complete_op now cr).0 in
      let same = completion-schedule now cr in
      let moved : outcome (run_op r complete_op now cr) ≡ some (running ((k + 1) % n)) =
        run_op-refines r complete_op now cr h a ∙ ap (contract n complete_op) p in
      completions_cycle later ((k + 1) % n) next (run_op-IsCoherent r complete_op now cr h)
        (run_op-IsArmed r complete_op now cr h a (running-IsResumable cr k p))
        (completion_outcome now cr (running ((k + 1) % n)) moved) (rw same (round_lt k n lt))
      ∙ ap running (rw same (count_round k (length later) n))
