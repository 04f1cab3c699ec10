-- ===== src/Server/Routes/Router.antt =====
-- cmd/routes.go: the table of the routes, behind the middleware and the router of the package chi.
pub mod Table
pub mod Paths
use text.Mathlib.Text.{◌==◌ as str_eq}
use pomodoro_backend.Base.{ℕ, String, Option, none, some, List, [], ◌∷◌, Bool, true, if◌then◌else◌}
use pomodoro_backend.Clock.Time.{Time}
use pomodoro_backend.Clock.Redis.{Redis}
use pomodoro_backend.Auth.User.{NewUserRequest, UserLoginCredentials, Jwt}
use pomodoro_backend.Auth.Repo.{Database}
use pomodoro_backend.Auth.Handlers.{Request}
use pomodoro_backend.Server.Routes.{
  Call, system_state, system_start, register, login, register_admin, profile, State, Reply, barred,
  serve,
}

-- A request, with its header `Authorization`.
pub record HttpRequest : Type 0 where
  pub method : String
  pub path : String
  pub authorization : String
  pub body : String

-- The package encoding/json, for the bodies of the requests; `none` is its error.
pub record Json : Type 0 where
  pub new_user_request : String → Option NewUserRequest
  pub user_login_credentials : String → Option UserLoginCredentials

-- `mux.Get` and `mux.Post`: a method and a path, with what is done for a request.
pub record Route : Type 0 where
  pub method : String
  pub path : String
  pub handler : HttpRequest → Call

-- `cors.Options`
pub record CorsOptions : Type 0 where
  pub allowed_origins : List String
  pub allowed_methods : List String
  pub allowed_headers : List String
  pub exposed_headers : List String
  pub allow_credentials : Bool
  pub max_age : ℕ

abbrev pub cors_options : CorsOptions
cors_options = record {
  allowed_origins = "*" ∷ [];
  allowed_methods = "GET" ∷ "POST" ∷ "PUT" ∷ "DELETE" ∷ "OPTIONS" ∷ "PATCH" ∷ [];
  allowed_headers = "Accept" ∷ "Authorization" ∷ "Content-Type" ∷ "X-CSRF-Token" ∷ [];
  exposed_headers = "Link" ∷ [];
  allow_credentials = true;
  max_age = 300;
}

-- The package chi: the route of a method and a path, or the status of the answer where there is
-- none; and the middleware of `mux.Use`, in its order, which answers some requests itself.
pub record Chi : Type 1 where
  pub find : List Route → (method path : String) → Option Route
  pub unmatched : List Route → (method path : String) → ℕ
  pub cors : CorsOptions → HttpRequest → Option Reply
  pub heartbeat : (endpoint : String) → HttpRequest → Option Reply

-- `r.Method == http.MethodPost`
abbrev pub is_post : HttpRequest → Bool
is_post q = str_eq q.method "POST"

module _ (json : Json) where
  abbrev pub new_user : HttpRequest → Request NewUserRequest
  new_user q = record { is_post = is_post q; body = json.new_user_request q.body }

  abbrev pub credentials : HttpRequest → Request UserLoginCredentials
  credentials q = record { is_post = is_post q; body = json.user_login_credentials q.body }

  abbrev pub get : String → (HttpRequest → Call) → Route
  get path handler = record { method = "GET"; path = path; handler = handler }

  abbrev pub post : String → (HttpRequest → Call) → Route
  post path handler = record { method = "POST"; path = path; handler = handler }

  unfoldable pub routes : List Route
  routes =
      get "/system/state" (λ q. system_state)
      ∷ post "/system/start" (λ q. system_start)
      ∷ post "/auth/register" (λ q. register (new_user q))
      ∷ post "/auth/login" (λ q. login (credentials q))
      ∷ post "/auth/register-admin" (λ q. register_admin (new_user q))
      ∷ get "/auth/profile" (λ q. profile)
      ∷ []

  module _ (chi : Chi) (r : Redis) (d : Database) (jwt : Jwt) where
    abbrev pub routed : Time → HttpRequest → State r d jwt → Option Route → State r d jwt × Reply
    routed now q w none = (w, barred (chi.unmatched routes q.method q.path))
    routed now q w (some route) = serve r d jwt now q.authorization (route.handler q) w

    unfoldable pub serve_http : Time → HttpRequest → State r d jwt → State r d jwt × Reply
    serve_http now q w = elim (chi.cors cors_options q) [
      | some reply ↦ (w, reply)
      | none ↦ elim (chi.heartbeat "/ping" q) [
        | some reply ↦ (w, reply)
        | none ↦ routed now q w (chi.find routes q.method q.path)
      ]
    ]
