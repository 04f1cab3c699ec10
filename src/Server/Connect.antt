-- ===== src/Server/Connect.antt =====
-- cmd/utils.go: the connection to the database, which is tried again and again.
pub mod Attempts
use pomodoro_backend.Base.{
  ℕ, zero, suc, ◌+◌, ◌-◌, ◌≤◌, ◌<◌, ◌≡◌, ◌≢◌, refl, Bool, true, false, ◌⊎◌, inl, inr, Option,
  Option-cases, Bool-cases, none, some, ltb, arith,
}

-- What the program calls of the package pgxpool: `ParseConfig` and `NewWithConfig`, where `none` is
-- an error, and whether `Ping` succeeds. The number counts the attempts, since their outcomes
-- differ over time.
pub record Postgres : Type 1 where
  pub PoolConfig : Type 0
  pub Pool : Type 0
  pub parse_config : ℕ → Option PoolConfig
  pub new_pool : ℕ → PoolConfig → Option Pool
  pub ping : ℕ → Pool → Bool

module _ (pg : Postgres) where
  open pg use {Pool, parse_config, new_pool, ping}

  -- `openDB` in its attempt i; `none` is an error.
  unfoldable pub open_db : ℕ → Option Pool
  open_db i = elim (parse_config i) [
    | none ↦ none
    | some config ↦ elim (new_pool i config) [
      | none ↦ none
      | some pool ↦ elim (ping i pool) [ true ↦ some pool | false ↦ none ]
    ]
  ]

  -- The loop of `connectToDB` from the attempt i on, with the global `counts`: its result, which
  -- is a pool or nil, or `none` where the fuel runs out.
  unfoldable pub connect_loop : (fuel counts i : ℕ) → Option (Option Pool)
  unfolding open_db
  connect_loop zero counts i = none
  connect_loop (suc fuel) counts i = elim (open_db i) [
    | some pool ↦ some (some pool)
    | none ↦ elim (ltb 10 (counts + 1)) [
      | true ↦ some none
      | false ↦ connect_loop fuel (counts + 1) (i + 1)
    ]
  ]

  -- As many rounds as `counts` can take from 0 beyond 10.
  unfoldable pub connect_to_db : Option (Option Pool)
  unfolding connect_loop
  connect_to_db = connect_loop 11 0 0

  -- A pool was got by an attempt k below a limit, and none by the attempts before it.
  pub record IsFirst (i limit : ℕ) (pool : Pool) (k : ℕ) : Type 0 where
    pub from : i ≤ k
    pub below : k < limit
    pub opened : open_db k ≡ some pool
    pub before : (j : ℕ) → i ≤ j → j < k → open_db j ≡ none

  -- What the attempts from i up to a limit come to.
  abbrev pub Outcome : (i limit : ℕ) → Option Pool → Type 0
  Outcome i limit none = (j : ℕ) → i ≤ j → j < limit → open_db j ≡ none
  Outcome i limit (some pool) = (k : ℕ) × IsFirst i limit pool k
