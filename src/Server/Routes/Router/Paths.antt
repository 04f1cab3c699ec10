-- ===== src/Server/Routes/Router/Paths.antt =====
-- cmd/routes.go: which requests change what, by their method and their path.
use text.Mathlib.Text.{◌==◌ as str_eq}
use mathlib.Core.Path.{subst}
use pomodoro_backend.Auth.Handlers.{get_profile}
use pomodoro_backend.Base.{◌≡◌, none, refl, sym, ap, ◌⊎◌, inl, inr, Option-cases}
use pomodoro_backend.Clock.Time.{Time}
use pomodoro_backend.Clock.Redis.{Redis}
use pomodoro_backend.Auth.User.{Jwt}
use pomodoro_backend.Auth.Repo.{Database}
use pomodoro_backend.Auth.Guard.{UserContext, context_of, require_admin_role, require_any_user_role}
use pomodoro_backend.Auth.Guard.Access.{Authorised}
use pomodoro_backend.Server.Routes.{Call, State, serve, serve_state, serve_start, answer}
use pomodoro_backend.Server.Routes.Access.{Verdict-cases, admin_passed, behind_keeps}
use pomodoro_backend.Server.Routes.Router.{
  HttpRequest, Json, Chi, cors_options, routes, routed, serve_http,
}
use pomodoro_backend.Server.Routes.Router.Table.{
  IsChi, IsRouted, to_state, to_start, to_register, to_login, to_register_admin, to_profile,
  found-IsRouted, IsRouted-found,
}

module _ (r : Redis) (d : Database) (jwt : Jwt) where
  -- What a request may change.
  abbrev pub MayChange : Time → HttpRequest → State r d jwt → State r d jwt → Type 0
  MayChange now q w w' =
      (w' ≡ w)
      ⊎ ((q.method ≡ "POST")
          × (q.path ≡ "/system/start")
          × (w'.users ≡ w.users)
          × ((c : UserContext) × Authorised d jwt now (λ role. str_eq role "ADMIN") w.users
                q.authorization c))
      ⊎ ((q.method ≡ "POST")
          × ((q.path ≡ "/auth/register") ⊎ (q.path ≡ "/auth/register-admin"))
          × (w'.clock ≡ w.clock))

module _ (json : Json) (chi : Chi) (h : IsChi chi) (r : Redis) (d : Database) (jwt : Jwt) where
  -- A request leaves the world, or is served as a call that the table has for it.
  serve_http_lem :
      (now : Time) (q : HttpRequest) (w : State r d jwt)
      → ((serve_http json chi r d jwt now q w).0 ≡ w)
        ⊎ ((call : Call) × IsRouted json q call
            × (serve_http json chi r d jwt now q w ≡ serve r d jwt now q.authorization call w))
  unfolding serve_http
  serve_http_lem now q w = elim (Option-cases (chi.cors cors_options q)) [
    | inr (reply, e) ↦ inl (rw (e, serve_http) refl)
    | inl e ↦ elim (Option-cases (chi.heartbeat "/ping" q)) [
      | inr (reply, f) ↦ inl (rw (e, f, serve_http) refl)
      | inl f ↦ elim (Option-cases (chi.find (routes json) q.method q.path)) [
        | inl g ↦ inl (rw (e, f, g, serve_http) refl)
        | inr (route, g) ↦
            inr
              (route.handler q, found-IsRouted json chi h q route g, rw (e, f, g, serve_http) refl)
      ]
    ]
  ]

  call_changes :
      (now : Time) (q : HttpRequest) (w : State r d jwt) (call : Call)
      → IsRouted json q call
      → MayChange r d jwt now q w (serve r d jwt now q.authorization call w).0
  unfolding serve serve_state serve_start
  call_changes now q w call (to_state m p) = inl (
      behind_keeps (λ x. x) (require_any_user_role d jwt now w.users q.authorization) w
        (λ c. serve_state r d jwt now w) (λ c. refl))
  call_changes now q w call (to_start m p) =
      elim (Verdict-cases (require_admin_role d jwt now w.users q.authorization)) [
        | inl (status, e) ↦ inl (rw e refl)
        | inr (c, e) ↦
            inr (inl (m, p, rw e refl, (c, admin_passed r d jwt now q.authorization w c e)))
      ]
  call_changes now q w call (to_register m p) = inr (inr (m, inl p, refl))
  call_changes now q w call (to_login m p) = inl refl
  call_changes now q w call (to_register_admin m p) = inr (inr (m, inr p, refl))
  call_changes now q w call (to_profile m p) = inl (
      behind_keeps (λ x. x) (require_any_user_role d jwt now w.users q.authorization) w
        (λ c. (w, answer (get_profile d jwt (context_of c) w.users))) (λ c. refl))

  -- With the documented behaviour of the router: of the requests to the server, only a POST to
  -- /system/start changes the clock, with a valid token of a user whom the database knows as an
  -- admin, and only a POST to /auth/register or to /auth/register-admin changes the users; none
  -- changes both.
  pub serve_http_changes :
      (now : Time) (q : HttpRequest) (w : State r d jwt)
      → MayChange r d jwt now q w (serve_http json chi r d jwt now q w).0
  serve_http_changes now q w = elim (serve_http_lem now q w) [
    | inl same ↦ inl same
    | inr (call, routed, same) ↦
        subst (MayChange r d jwt now q w) (sym (ap (λ x. x.0) same))
          (call_changes now q w call routed)
  ]

  -- A request that no middleware answers, with a method and a path of the table, is served as the
  -- call that the table has for it.
  pub serve_http-IsRouted :
      (now : Time) (q : HttpRequest) (w : State r d jwt) (call : Call)
      → IsRouted json q call
      → chi.cors cors_options q ≡ none
      → chi.heartbeat "/ping" q ≡ none
      → serve_http json chi r d jwt now q w ≡ serve r d jwt now q.authorization call w
  unfolding serve_http
  serve_http-IsRouted now q w call routed e f =
      let (route, g, same) = IsRouted-found json chi h q call routed in
      rw (e, f, g, serve_http, sym same) refl
