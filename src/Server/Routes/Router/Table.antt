-- ===== src/Server/Routes/Router/Table.antt =====
-- cmd/routes.go: the table of the routes as a relation.
use text.Mathlib.Text.{◌==◌ as str_eq}
use mathlib.Core.List.{Memᴰ}
use pomodoro_backend.Base.{
  String, ◌≡◌, none, ◌≢◌, arith, if◌then◌else◌, Option, refl, sym, inl, inr, Option-cases, some,
  List, All, All-member,
}
use pomodoro_backend.Server.Routes.{
  Call, system_state, system_start, register, login, register_admin, profile,
}
use pomodoro_backend.Server.Routes.Router.{
  HttpRequest, Json, Route, Chi, new_user, credentials, routes, routed,
}

-- The documented behaviour of the router for paths without placeholders: a route that is found is
-- one of the table, with the method and the path of the request, and one is found where there is one.
pub record IsChi (chi : Chi) : Type 0 where
  pub found :
      (table : List Route) (method path : String) (route : Route)
      → chi.find table method path ≡ some route
      → Memᴰ route table × (route.method ≡ method) × (route.path ≡ path)
  pub complete :
      (table : List Route) (route : Route)
      → Memᴰ route table
      → chi.find table route.method route.path ≢ none

module _ (json : Json) where
  -- The table, as a relation between a request and what is done for it.
  pub data IsRouted (q : HttpRequest) : Call → Type 0 where
    to_state : q.method ≡ "GET" → q.path ≡ "/system/state" → IsRouted q system_state
    to_start : q.method ≡ "POST" → q.path ≡ "/system/start" → IsRouted q system_start
    to_register :
        q.method ≡ "POST" → q.path ≡ "/auth/register" → IsRouted q (register (new_user json q))
    to_login : q.method ≡ "POST" → q.path ≡ "/auth/login" → IsRouted q (login (credentials json q))
    to_register_admin :
        q.method ≡ "POST"
        → q.path ≡ "/auth/register-admin"
        → IsRouted q (register_admin (new_user json q))
    to_profile : q.method ≡ "GET" → q.path ≡ "/auth/profile" → IsRouted q profile

  -- Every route of the table, for a request with its method and its path.
  routes_lem :
      (q : HttpRequest)
      → All
          (λ route. route.method ≡ q.method → route.path ≡ q.path → IsRouted q (route.handler q))
          (routes json)
  unfolding routes
  routes_lem q = (
    λ e f. to_state (sym e) (sym f),
    (
      λ e f. to_start (sym e) (sym f),
      (
        λ e f. to_register (sym e) (sym f),
        (
          λ e f. to_login (sym e) (sym f),
          (λ e f. to_register_admin (sym e) (sym f), (λ e f. to_profile (sym e) (sym f), tt)),
        ),
      ),
    ),
  )

  -- What is done for a request, by its path.
  abbrev call_of : HttpRequest → Option Call
  call_of q =
      if str_eq q.path "/system/state"
      then some system_state
      else if str_eq q.path "/system/start"
      then some system_start
      else if str_eq q.path "/auth/register"
      then some (register (new_user json q))
      else if str_eq q.path "/auth/login"
      then some (login (credentials json q))
      else if str_eq q.path "/auth/register-admin"
      then some (register_admin (new_user json q))
      else if str_eq q.path "/auth/profile"
      then some profile
      else none

  IsRouted-call_of : (q : HttpRequest) (call : Call) → IsRouted q call → call_of q ≡ some call
  IsRouted-call_of q call (to_state m p) = rw p refl
  IsRouted-call_of q call (to_start m p) = rw p refl
  IsRouted-call_of q call (to_register m p) = rw p refl
  IsRouted-call_of q call (to_login m p) = rw p refl
  IsRouted-call_of q call (to_register_admin m p) = rw p refl
  IsRouted-call_of q call (to_profile m p) = rw p refl

  IsRouted-unique :
      (q : HttpRequest) (call call' : Call) → IsRouted q call → IsRouted q call' → call ≡ call'
  IsRouted-unique q call call' h h' =
      ground (arith, IsRouted-call_of q call h, IsRouted-call_of q call' h')

  -- The route of a call.
  IsRouted-Memᴰ :
      (q : HttpRequest) (call : Call)
      → IsRouted q call
      → (route : Route) × Memᴰ route (routes json)
        × (route.method ≡ q.method)
        × (route.path ≡ q.path)
  unfolding routes
  IsRouted-Memᴰ q call (to_state m p) = (_, Memᴰ.head refl, sym m, sym p)
  IsRouted-Memᴰ q call (to_start m p) = (_, Memᴰ.tail (Memᴰ.head refl), sym m, sym p)
  IsRouted-Memᴰ q call (to_register m p) = (_, Memᴰ.tail (Memᴰ.tail (Memᴰ.head refl)), sym m, sym p)
  IsRouted-Memᴰ q call (to_login m p) =
      (_, Memᴰ.tail (Memᴰ.tail (Memᴰ.tail (Memᴰ.head refl))), sym m, sym p)
  IsRouted-Memᴰ q call (to_register_admin m p) =
      (_, Memᴰ.tail (Memᴰ.tail (Memᴰ.tail (Memᴰ.tail (Memᴰ.head refl)))), sym m, sym p)
  IsRouted-Memᴰ q call (to_profile m p) =
      (_, Memᴰ.tail (Memᴰ.tail (Memᴰ.tail (Memᴰ.tail (Memᴰ.tail (Memᴰ.head refl))))), sym m, sym p)

  module _ (chi : Chi) (h : IsChi chi) where
    IsRouted-known :
        (q : HttpRequest) (call : Call)
        → IsRouted q call
        → chi.find (routes json) q.method q.path ≢ none
    IsRouted-known q call routed e =
        let (route, m, method, path) = IsRouted-Memᴰ q call routed in
        h.complete (routes json) route m (rw (method, path) e)

    pub found-IsRouted :
        (q : HttpRequest) (route : Route)
        → chi.find (routes json) q.method q.path ≡ some route
        → IsRouted q (route.handler q)
    found-IsRouted q route e =
        let (m, method, path) = h.found (routes json) q.method q.path route e in
        All-member _ (routes json) route (routes_lem q) m method path

    -- A request with a method and a path of the table is matched.
    pub IsRouted-found :
        (q : HttpRequest) (call : Call)
        → IsRouted q call
        → (route : Route) × (chi.find (routes json) q.method q.path ≡ some route)
          × (route.handler q ≡ call)
    IsRouted-found q call h = elim (Option-cases (chi.find (routes json) q.method q.path)) [
      | inl e ↦ absurd (IsRouted-known q call h e)
      | inr (route, e) ↦ (route, e, IsRouted-unique q _ call (found-IsRouted q route e) h)
    ]
