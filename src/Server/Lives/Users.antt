-- ===== src/Server/Lives/Users.antt =====
-- cmd and internal/auth: the users of a server, over a database that answers.
use mathlib.Core.Path.{subst}
use text.Mathlib.Text.{◌==◌ as str_eq}
use text.Mathlib.TextEquality.{eq_iff}
use pomodoro_backend.Base.{
  String, ◌≡◌, refl, sym, ap, ◌∙◌, ◌⊎◌, inl, inr, Bool-cases, none, some, List, ◌∷◌, arith,
}
use pomodoro_backend.Clock.Time.{Time}
use pomodoro_backend.Clock.Redis.{Redis}
use pomodoro_backend.Auth.User.{NewUserRequest, Jwt}
use pomodoro_backend.Auth.Handlers.{Request}
use pomodoro_backend.Auth.Repo.{Database}
use pomodoro_backend.Auth.Guard.{require_admin_role, require_any_user_role}
use pomodoro_backend.Auth.Queries.{DbTx, Bcrypt, repository}
use pomodoro_backend.Auth.Queries.Table.{UserRecord, select, IsUsers}
use pomodoro_backend.Auth.Queries.Postgres.{IsPostgres}
use pomodoro_backend.Auth.Queries.Growth.{Grown, register_user-Grown, register_admin_user-Grown}
use pomodoro_backend.Server.Routes.{
  Call, system_state, system_start, register, login, register_admin, profile, State, serve,
  serve_start, serve_state,
}
use pomodoro_backend.Server.Routes.Access.{behind_keeps}
use pomodoro_backend.Server.Lives.{
  Step, request, completed, ticked, saved, restarted, Life, begin, next, Had, now_had, before,
}

-- A row in front with another name does not hide a user.
kept_behind :
    (u new : UserRecord) (name : String) (users : List UserRecord)
    → select (λ x. x.username) new.username users ≡ none
    → select (λ x. x.username) name users ≡ some u
    → select (λ x. x.username) name (new ∷ users) ≡ some u
kept_behind u new name users fresh at = elim (Bool-cases (str_eq new.username name)) [
  | inl e ↦
      let same : new.username ≡ name = (eq_iff new.username name).0 e in
      absurd (ground (arith, subst (λ n. select (λ x. x.username) n users ≡ none) same fresh, at))
  | inr e ↦ rw e at
]

module _ (r : Redis) (tx : DbTx) (pg : IsPostgres tx) (b : Bcrypt) (jwt : Jwt) where
  abbrev d : Database
  d = repository tx b

  -- What a request does to the table of the users: the registration of a user leaves it or adds a
  -- row with the role USER, that of an admin leaves it or adds one with the role ADMIN, and every
  -- other request leaves it.
  abbrev pub Served : Call → List UserRecord → List UserRecord → Type 0
  Served (register req) users users' = Grown "USER" users users'
  Served (register_admin req) users users' = Grown "ADMIN" users users'
  Served system_state users users' = users' ≡ users
  Served system_start users users' = users' ≡ users
  Served (login req) users users' = users' ≡ users
  Served profile users users' = users' ≡ users

  serve-Served :
      (now : Time) (header : String) (call : Call) (w : State r d jwt)
      → Served call (pg.rows w.users) (pg.rows (serve r d jwt now header call w).0.users)
  unfolding serve serve_state serve_start
  serve-Served now header (register req) w = register_user-Grown tx pg b jwt now req w.users
  serve-Served now header (register_admin req) w =
      register_admin_user-Grown tx pg b jwt now req w.users
  serve-Served now header system_state w = ap pg.rows (
      behind_keeps (λ (x : State r d jwt). x.users) (require_any_user_role d jwt now w.users header)
        w _ (λ c. refl))
  serve-Served now header system_start w = ap pg.rows (
      behind_keeps (λ (x : State r d jwt). x.users) (require_admin_role d jwt now w.users header) w
        _ (λ c. refl))
  serve-Served now header (login req) w = refl
  serve-Served now header profile w = ap pg.rows (
      behind_keeps (λ (x : State r d jwt). x.users) (require_any_user_role d jwt now w.users header)
        w _ (λ c. refl))

  -- A step that may make an admin: a request for the registration of one.
  pub data IsPromotion : (w w' : State r d jwt) → Step r d jwt w w' → Type 1 where
    by_request :
        {w : State r d jwt} (now : Time) (header : String) (req : Request NewUserRequest)
        → IsPromotion w _ (request now header (register_admin req))

  -- A step leaves the table, or adds a row, whose role is USER unless the step may make an admin.
  Step-grows :
      (w w' : State r d jwt) (step : Step r d jwt w w')
      → (pg.rows w'.users ≡ pg.rows w.users)
        ⊎ ((new : UserRecord) × ((new.role ≡ "USER") ⊎ IsPromotion w w' step)
            × (pg.rows w'.users ≡ new ∷ pg.rows w.users))
  Step-grows w w' (request now header (register req)) =
      elim (serve-Served now header (register req) w) [
        | inl same ↦ inl same
        | inr (new, role, put) ↦ inr (new, inl role, put)
      ]
  Step-grows w w' (request now header (register_admin req)) =
      elim (serve-Served now header (register_admin req) w) [
        | inl same ↦ inl same
        | inr (new, role, put) ↦ inr (new, inr (by_request now header req), put)
      ]
  Step-grows w w' (request now header system_state) = inl (serve-Served now header system_state w)
  Step-grows w w' (request now header system_start) = inl (serve-Served now header system_start w)
  Step-grows w w' (request now header (login req)) = inl (serve-Served now header (login req) w)
  Step-grows w w' (request now header profile) = inl (serve-Served now header profile w)
  Step-grows w w' (completed now due set) = inl refl
  Step-grows w w' (ticked now) = inl refl
  Step-grows w w' (saved now) = inl refl
  Step-grows w w' (restarted p env fetched checked now events redis cr e) = inl refl

  -- The name of a row in front is not that of a row behind it.
  fresh_name :
      (db : tx.Store) (new : UserRecord) (users : List UserRecord)
      → pg.rows db ≡ new ∷ users
      → select (λ x. x.username) new.username users ≡ none
  fresh_name db new users e = (subst IsUsers e (pg.users db)).2

  -- Over a database that answers, a user who is found by a name is found by it at every later time
  -- of the server's life, with the same id, email, hash, role and time.
  pub Life-keeps_user :
      (w w' : State r d jwt)
      → Life r d jwt w w'
      → (name : String) (u : UserRecord) → select (λ x. x.username) name (pg.rows w.users) ≡ some u
      → select (λ x. x.username) name (pg.rows w'.users) ≡ some u
  Life-keeps_user w w' begin name u at = at
  Life-keeps_user w w' (next {v} life step) name u at =
      let found = Life-keeps_user w v life name u at in
      elim (Step-grows v w' step) [
        | inl same ↦ rw same found
        | inr (new, why, put) ↦
            rw put (kept_behind u new name (pg.rows v.users) (fresh_name w'.users new _ put) found)
      ]

  -- A row found in a table with a new one is the new one, or was found without it.
  new_or_found :
      (u new : UserRecord) (name : String) (users : List UserRecord)
      → select (λ x. x.username) name (new ∷ users) ≡ some u
      → (u ≡ new) ⊎ (select (λ x. x.username) name users ≡ some u)
  new_or_found u new name users at = ground arith

  new_admin {ℓ} :
      {P : Type ℓ} (new : UserRecord) (name : String) (users : List UserRecord) (u : UserRecord)
      → u.role ≡ "ADMIN"
      → (new.role ≡ "USER") ⊎ P
      → select (λ x. x.username) name (new ∷ users) ≡ some u
      → (select (λ x. x.username) name users ≡ some u) ⊎ P
  new_admin new name users u admin (inr p) at = inr p
  new_admin new name users u admin (inl role) at = elim (new_or_found u new name users at) [
    | inl same ↦
        let clash : "ADMIN" ≡ "USER" = sym admin ∙ ap (λ (x : UserRecord). x.role) same ∙ role in
        absurd (cc clash)
    | inr found ↦ inl found
  ]

  -- Over a database that answers, an admin who is found by a name was found by it already at every
  -- earlier time of the server's life, unless in between there was a request for the registration
  -- of an admin.
  pub Life-admins :
      (w w' : State r d jwt) (life : Life r d jwt w w') (name : String) (u : UserRecord)
      → u.role ≡ "ADMIN"
      → select (λ x. x.username) name (pg.rows w'.users) ≡ some u
      → (select (λ x. x.username) name (pg.rows w.users) ≡ some u)
        ⊎ Had r d jwt IsPromotion w w' life
  Life-admins w w' begin name u admin at = inl at
  Life-admins w w' (next {v} life step) name u admin at =
      let was : (select (λ x. x.username) name (pg.rows v.users) ≡ some u) ⊎ IsPromotion v w' step =
        elim (Step-grows v w' step) [
          | inl same ↦ inl (rw (sym same) at)
          | inr (new, why, put) ↦
              new_admin new name (pg.rows v.users) u admin why
                (subst (λ users. select (λ x. x.username) name users ≡ some u) put at)
        ] in
      elim was [
        | inr now_made ↦ inr (now_had life step now_made)
        | inl found ↦ elim (Life-admins w v life name u admin found) [
          | inl known ↦ inl known
          | inr made ↦ inr (before life step made)
        ]
      ]
