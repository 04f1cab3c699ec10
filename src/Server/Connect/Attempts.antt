-- ===== src/Server/Connect/Attempts.antt =====
-- cmd/utils.go: the loop of `connectToDB` ends, and what it returns.
use pomodoro_backend.Base.{
  ℕ, zero, suc, ◌+◌, ◌-◌, ◌≤◌, ◌<◌, ◌≡◌, ◌⊎◌, sym, true, false, inl, inr, Option, Option-cases,
  Bool-cases, none, some, ltb, arith,
}
use pomodoro_backend.Server.Connect.{Postgres, open_db, connect_loop, connect_to_db, Outcome}

here_or_later : (i j : ℕ) → i ≤ j → (i ≡ j) ⊎ (i + 1 ≤ j)
here_or_later i j le = ground arith

last :
    (i counts j : ℕ)
    → counts ≤ 10
    → ltb 10 (counts + 1) ≡ true
    → i ≤ j
    → j < i + (11 - counts)
    → i ≡ j
last i counts j low full from below = ground arith

same_limit :
    (counts i : ℕ) → ltb 10 (counts + 1) ≡ false → i + (11 - counts) ≡ i + 1 + (11 - (counts + 1))
same_limit counts i more = ground arith

module _ (pg : Postgres) where
  open pg use {Pool}

  -- One failed attempt in front of others.
  later-Outcome :
      (i limit : ℕ) (res : Option Pool)
      → open_db pg i ≡ none
      → Outcome pg (i + 1) limit res
      → Outcome pg i limit res
  later-Outcome i limit none e h = λ j from below. elim (here_or_later i j from) [
    | inl here ↦ rw (sym here) e
    | inr later ↦ h j later below
  ]
  later-Outcome i limit (some pool) e (k, h) = (
    k,
    record {
      from = omega (arith, h.from);
      below = h.below;
      opened = h.opened;
      before = λ j from below. elim (here_or_later i j from) [
        | inl here ↦ rw (sym here) e
        | inr later ↦ h.before j later below
      ];
    },
  )

  -- With the counter at most 10, as many rounds as it can still take beyond 10 are enough, and no
  -- attempt is made behind these.
  connect_loop_ends :
      (fuel counts i : ℕ)
      → counts ≤ 10
      → 11 ≤ fuel + counts
      → (res : Option Pool) × (connect_loop pg fuel counts i ≡ some res)
        × Outcome pg i (i + (11 - counts)) res
  unfolding connect_loop
  connect_loop_ends zero counts i low enough = absurd (omega arith)
  connect_loop_ends (suc fuel) counts i low enough = elim (Option-cases (open_db pg i)) [
    | inr (pool, e) ↦ (
      some pool,
      ground arith,
      (
        i,
        record {
          from = omega arith;
          below = omega arith;
          opened = e;
          before = λ j from below. absurd (omega arith);
        },
      ),
    )
    | inl e ↦ elim (Bool-cases (ltb 10 (counts + 1))) [
      | inl full ↦
          (none, ground arith, λ j from below. rw (sym (last i counts j low full from below)) e)
      | inr more ↦
          let (res, run, out) =
            connect_loop_ends fuel (counts + 1) (i + 1) (ground arith) (omega arith) in
          (
            res,
            ground arith,
            later-Outcome i (i + (11 - counts)) res e (rw (same_limit counts i more) out),
          )
    ]
  ]

  -- `connectToDB` ends after at most 11 attempts: it returns the pool of the first attempt that
  -- succeeds, or nil where all the 11 fail.
  pub connect_to_db_ends : (res : Option Pool) × (connect_to_db pg ≡ some res) × Outcome pg 0 11 res
  unfolding connect_to_db
  connect_to_db_ends = connect_loop_ends 11 0 0 (omega arith) (omega arith)
