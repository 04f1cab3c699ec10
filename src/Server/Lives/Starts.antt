-- ===== src/Server/Lives/Starts.antt =====
-- cmd: nothing runs on a server that nobody started.
use pomodoro_backend.Base.{List, refl, ap, ◌∙◌, String, ◌≡◌, ◌⊎◌, inl, inr, none, some, arith}
use text.Mathlib.Text.{◌==◌ as str_eq}
use pomodoro_backend.Clock.Time.{Time}
use pomodoro_backend.Clock.State.{new_state_manager}
use pomodoro_backend.Clock.Timer.{new_timer_manager}
use pomodoro_backend.Clock.Redis.{Redis}
use pomodoro_backend.Clock.Runner.{ClockRunner, new_clock_runner}
use pomodoro_backend.Auth.User.{Jwt}
use pomodoro_backend.Auth.Repo.{Database}
use pomodoro_backend.Auth.Guard.{UserContext}
use pomodoro_backend.Auth.Guard.Access.{Authorised}
use pomodoro_backend.Server.Connect.{Postgres}
use pomodoro_backend.Server.Startup.{Event, make_clock, start_server}
use pomodoro_backend.Server.Startup.Waiting.{
  IsResting, tick-IsResting, saver_tick-IsResting, elapse-IsResting,
}
use pomodoro_backend.Server.Startup.Serving.{start_server_reached}
use pomodoro_backend.Server.Routes.{Call, State, system_start}
use pomodoro_backend.Server.Routes.Access.{serve_clock}
use pomodoro_backend.Server.Lives.{
  Step, request, completed, ticked, saved, restarted, Life, begin, next, Had, now_had, before,
}

module _ (r : Redis) where
  open r use {Store}

  restarted_alone-IsResting :
      (pg : Postgres) (env : String → String) (fetched checked now : Time) (events : List Event)
      (cr : ClockRunner Store)
      → start_server r pg env fetched checked now events none ≡ some cr
      → IsResting cr
  unfolding make_clock new_clock_runner new_state_manager new_timer_manager
  restarted_alone-IsResting pg env fetched checked now events cr e =
      let (s, read, done) = start_server_reached r pg env fetched checked now events none cr e in
      let rests =
        elapse-IsResting r events (make_clock r fetched checked now none)
          (record { at_rest = refl; no_timer = refl }) in
      record {
        at_rest = ap (λ m. m.state) done.state ∙ rests.at_rest;
        no_timer = ap (λ m. m.timer) done.timer ∙ rests.no_timer;
      }

  module _ (d : Database) (jwt : Jwt) where
    -- A request to start the clock by a user whom the database knows as an admin.
    pub data IsByAdmin : (w w' : State r d jwt) → Step r d jwt w w' → Type 1 where
      by_admin :
          {w : State r d jwt} (now : Time) (header : String) (call : Call) (c : UserContext)
          → call ≡ system_start
          → Authorised d jwt now (λ role. str_eq role "ADMIN") w.users header c
          → IsByAdmin w _ (request now header call)

    -- A restart with what Redis holds.
    pub data IsResumed : (w w' : State r d jwt) → Step r d jwt w w' → Type 1 where
      resumed :
          {w : State r d jwt} (pg : Postgres) (env : String → String) (fetched checked now : Time)
          (events : List Event) (db : Store) (cr : ClockRunner Store)
          (e : start_server r pg env fetched checked now events (some db) ≡ some cr)
          → IsResumed w _ (restarted pg env fetched checked now events (some db) cr e)

    rests_or_starts :
        (w w' : State r d jwt) (step : Step r d jwt w w')
        → IsResting w.clock
        → IsResting w'.clock ⊎ IsByAdmin w w' step ⊎ IsResumed w w' step
    rests_or_starts w w' (request now header call) h =
        elim (serve_clock r d jwt now header call w) [
          | inl same ↦ inl (rw same h)
          | inr (e, (c, admin)) ↦ inr (inl (by_admin now header call c e admin))
        ]
    rests_or_starts w w' (completed now due set) h = absurd (ground (arith, h.no_timer, set))
    rests_or_starts w w' (ticked now) h = inl (tick-IsResting r now w.clock h)
    rests_or_starts w w' (saved now) h = inl (saver_tick-IsResting r now w.clock h)
    rests_or_starts w w' (restarted pg env fetched checked now events none cr e) h =
        inl (restarted_alone-IsResting pg env fetched checked now events cr e)
    rests_or_starts w w' (restarted pg env fetched checked now events (some db) cr e) h =
        inr (inr (resumed pg env fetched checked now events db cr e))

    -- A server whose clock rests has a clock that rests at every later time of its life, unless in
    -- between someone started it who is an admin of the database at that time and had a valid token,
    -- or the server was restarted with what Redis held.
    pub Life-IsResting :
        (w w' : State r d jwt) (life : Life r d jwt w w')
        → IsResting w.clock
        → IsResting w'.clock ⊎ Had r d jwt IsByAdmin w w' life ⊎ Had r d jwt IsResumed w w' life
    Life-IsResting w w' begin h = inl h
    Life-IsResting w w' (next life step) h = elim (Life-IsResting w _ life h) [
      | inr (inl started) ↦ inr (inl (before life step started))
      | inr (inr started) ↦ inr (inr (before life step started))
      | inl rests ↦ elim (rests_or_starts _ w' step rests) [
        | inl still ↦ inl still
        | inr (inl start) ↦ inr (inl (now_had life step start))
        | inr (inr start) ↦ inr (inr (now_had life step start))
      ]
    ]
