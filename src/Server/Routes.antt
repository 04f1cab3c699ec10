-- ===== src/Server/Routes.antt =====
-- cmd/routes.go: the routes, with their guards and handlers.
pub mod Access
pub mod Admins
pub mod Router
use pomodoro_backend.Base.{ℕ, String, Option, none, some, ◌==◌}
use pomodoro_backend.Clock.Time.{Time}
use pomodoro_backend.Clock.Redis.{Redis}
use pomodoro_backend.Clock.Runner.{ClockRunner}
use pomodoro_backend.Auth.User.{NewUserRequest, UserLoginCredentials, Jwt}
use pomodoro_backend.Auth.Repo.{Database}
use pomodoro_backend.Auth.Guard.{
  UserContext, Verdict, refused, passed, context_of, require_admin_role, require_any_user_role,
}
use pomodoro_backend.Auth.Handlers.{
  Request, Response, register_user, register_admin_user, login_user, get_profile,
}
use pomodoro_backend.Server.ClockHandler.{SystemStateResponse, get_system_state, start_new_pomodoro}

-- A request that the router has matched with a route, by its method and its path.
pub data Call : Type 0 where
  system_state : Call
  system_start : Call
  register : Request NewUserRequest → Call
  login : Request UserLoginCredentials → Call
  register_admin : Request NewUserRequest → Call
  profile : Call

-- What the server keeps: its clock, and the database of the users.
pub record World (Store Users : Type 0) : Type 0 where
  pub clock : ClockRunner Store
  pub users : Users

-- An error of a guard by its status, a report of the clock, the text of an answer with its status,
-- or an answer of a handler of the users.
pub data Reply : Type 0 where
  barred : ℕ → Reply
  report : SystemStateResponse → Reply
  plain : ℕ → String → Reply
  answer : Response → Reply

-- `mux.With(guard)`, of a guard's verdict and of the handler behind it.
abbrev pub behind {ℓ} : {W : Type ℓ} → Verdict → W → (UserContext → W × Reply) → W × Reply
behind (refused status) w handler = (w, barred status)
behind (passed c) w handler = handler c

module _ (r : Redis) (d : Database) (jwt : Jwt) where
  abbrev pub State : Type 0
  State = World r.Store d.Store

  -- The handlers of the clock.
  unfoldable pub serve_state : Time → State → State × Reply
  serve_state now w = (w, report (get_system_state r now now now w.clock))

  unfoldable pub serve_start : Time → State → State × Reply
  serve_start now w =
      let (cr, status, body) = start_new_pomodoro r now w.clock in
      (record w { clock = cr }, plain status body)

  abbrev pub keep_users : State → d.Store × Response → State × Reply
  keep_users w (db, res) = (record w { users = db }, answer res)

  -- `routes`: a request at a time, with the value of its header `Authorization`.
  unfoldable pub serve : Time → (header : String) → Call → State → State × Reply
  unfolding serve_state serve_start
  serve now header system_state w =
      behind (require_any_user_role d jwt now w.users header) w (λ c. serve_state now w)
  serve now header system_start w =
      behind (require_admin_role d jwt now w.users header) w (λ c. serve_start now w)
  serve now header (register req) w = keep_users w (register_user d jwt now req w.users)
  serve now header (login req) w = (w, answer (login_user d jwt now req w.users))
  serve now header (register_admin req) w = keep_users w (register_admin_user d jwt now req w.users)
  serve now header profile w =
      behind (require_any_user_role d jwt now w.users header) w
        (λ c. (w, answer (get_profile d jwt (context_of c) w.users)))
