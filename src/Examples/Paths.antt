-- ===== src/Examples/Paths.antt =====
-- A router that takes the first route of a method and a path, and a request to start the clock.
use text.Mathlib.Text.{◌==◌ as str_eq}
use text.Mathlib.TextEquality.{eq_iff}
use mathlib.Core.List.{Memᴰ}
use pomodoro_backend.Base.{
  String, ◌≡◌, ◌≢◌, ◌&&◌, refl, ap, inl, inr, Option, none, some, List, [], ◌∷◌, arith,
  if◌then◌else◌, Bool-cases, Bool,
}
use pomodoro_backend.Server.Routes.{plain, serve, system_start}
use pomodoro_backend.Server.Routes.Router.{HttpRequest, Json, Route, Chi, serve_http}
use pomodoro_backend.Server.Routes.Router.Paths.{MayChange, serve_http_changes, serve_http-IsRouted}
use pomodoro_backend.Server.Routes.Router.Table.{IsChi, to_start}
use pomodoro_backend.Examples.Store.{memory}
use pomodoro_backend.Examples.Users.{users, names, ben}
use pomodoro_backend.Examples.Requests.{world}

abbrev fits : Route → String → String → Bool
fits route method path = str_eq route.method method && str_eq route.path path

abbrev first_route : List Route → String → String → Option Route
first_route [] method path = none
first_route (route ∷ table) method path =
    let rest = first_route table method path in if fits route method path then some route else rest

abbrev router : Chi
router = record {
  find = first_route;
  unmatched = λ table method path. 404;
  cors = λ options q. if str_eq q.method "OPTIONS" then some (plain 200 "") else none;
  heartbeat = λ endpoint q. if str_eq q.path endpoint then some (plain 200 ".") else none;
}

first_route_lem :
    (table : List Route) (method path : String) (route : Route)
    → first_route table method path ≡ some route
    → Memᴰ route table × (route.method ≡ method) × (route.path ≡ path)
first_route_lem [] method path route h = ground arith
first_route_lem (x ∷ table) method path route h = elim (Bool-cases (fits x method path)) [
  | inl e ↦
      let same : route ≡ x = ground (arith, h, e) in
      (
        Memᴰ.head same,
        ground (arith, same, e, eq_iff x.method method),
        ground (arith, same, e, eq_iff x.path path),
      )
  | inr e ↦
      let (m, method, path) = first_route_lem table method path route (ground (arith, h, e)) in
      (Memᴰ.tail m, method, path)
]

first_route_complete :
    (table : List Route) (route : Route)
    → Memᴰ route table
    → first_route table route.method route.path ≢ none
first_route_complete [] route m e = elim m [ ]
first_route_complete (x ∷ table) route (Memᴰ.head same) e = ground (
  arith,
  ap (λ r. r.method) same,
  ap (λ r. r.path) same,
  (eq_iff x.method x.method).1 refl,
  (eq_iff x.path x.path).1 refl,
  e,
)
first_route_complete (x ∷ table) route (Memᴰ.tail m) e =
    first_route_complete table route m (ground (arith, e))

router-IsChi : IsChi router
router-IsChi = record { found = first_route_lem; complete = first_route_complete }

-- Every body is that of ben.
abbrev bodies : Json
bodies = record {
  new_user_request = λ body. some ben;
  user_login_credentials = λ body. some (record { username = "ben"; password = "pw" });
}

abbrev ann_starts : HttpRequest
ann_starts = record {
  method = "POST";
  path = "/system/start";
  authorization = "Bearer ann";
  body = "";
}

serve_http_changes_example :
    MayChange memory users names 60 ann_starts world
      (serve_http bodies router memory users names 60 ann_starts world).0
serve_http_changes_example =
    serve_http_changes bodies router router-IsChi memory users names 60 ann_starts world

serve_http-IsRouted_example :
    serve_http bodies router memory users names 60 ann_starts world
    ≡ serve memory users names 60 "Bearer ann" system_start world
serve_http-IsRouted_example =
    serve_http-IsRouted bodies router router-IsChi memory users names 60 ann_starts world
      system_start (to_start refl refl) refl refl
