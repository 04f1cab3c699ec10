-- ===== src/Server/Lives/Admins.antt =====
-- cmd and internal/auth: a server that no admin is known to.
use text.Mathlib.Text.{◌==◌ as str_eq}
use text.Mathlib.TextEquality.{eq_iff}
use pomodoro_backend.Base.{String, ◌≡◌, ◌≢◌, sym, ap, ◌∙◌, ◌⊎◌, inl, inr, some}
use pomodoro_backend.Clock.Time.{Time}
use pomodoro_backend.Clock.Redis.{Redis}
use pomodoro_backend.Auth.User.{Jwt}
use pomodoro_backend.Auth.Repo.{Database}
use pomodoro_backend.Auth.Guard.{UserContext}
use pomodoro_backend.Auth.Guard.Access.{Authorised}
use pomodoro_backend.Auth.Queries.{DbTx, Bcrypt, repository}
use pomodoro_backend.Auth.Queries.Table.{UserRecord, select}
use pomodoro_backend.Auth.Queries.Postgres.{IsPostgres}
use pomodoro_backend.Auth.Queries.Repository.{looked_up}
use pomodoro_backend.Server.Routes.{State}
use pomodoro_backend.Server.Lives.{Life, Had, now_had, before}
use pomodoro_backend.Server.Startup.Waiting.{IsResting}
use pomodoro_backend.Server.Lives.Starts.{IsByAdmin, by_admin, IsResumed, Life-IsResting}
use pomodoro_backend.Server.Lives.Users.{IsPromotion, Life-admins}

module _ (r : Redis) (tx : DbTx) (pg : IsPostgres tx) (b : Bcrypt) (jwt : Jwt) where
  abbrev d : Database
  d = repository tx b

  -- No row that is found by a name has the role ADMIN.
  abbrev pub HasNoAdmin : tx.Store → Type 0
  HasNoAdmin db =
      (name : String) (u : UserRecord)
      → select (λ x. x.username) name (pg.rows db) ≡ some u
      → u.role ≢ "ADMIN"

  -- Whoever passes as an admin is found in the table as one.
  admin_row :
      (now : Time) (db : tx.Store) (header : String) (c : UserContext)
      → Authorised d jwt now (λ role. str_eq role "ADMIN") db header c
      → (name : String) × (u : UserRecord) × (u.role ≡ "ADMIN")
        × (select (λ x. x.username) name (pg.rows db) ≡ some u)
  admin_row now db header c (token, claims, row, e, f, g, role, ok, id, name) =
      let (u, at, same) = looked_up tx pg b db claims.username row g in
      let admin : c.role ≡ "ADMIN" = (eq_iff c.role "ADMIN").0 ok in
      (claims.username, u, sym (ap (λ x. x.role) same) ∙ role ∙ admin, at)

  promoted_before :
      (w w' : State r d jwt) (life : Life r d jwt w w')
      → HasNoAdmin w.users
      → Had r d jwt (IsByAdmin r d jwt) w w' life
      → Had r d jwt (IsPromotion r tx pg b jwt) w w' life
  promoted_before w w' life none_yet (now_had {v} past step (by_admin now header call c e admin)) =
      let (name, u, role, at) = admin_row now v.users header c admin in
      elim (Life-admins r tx pg b jwt w v past name u role at) [
        | inl known ↦ absurd (none_yet name u known role)
        | inr made ↦ before past step made
      ]
  promoted_before w w' life none_yet (before {v} past step had) =
      before past step (promoted_before w v past none_yet had)

  -- Over a database that answers and that knows no admin, a clock that is idle and has no timer is
  -- so at every later time of the server's life, unless in between there was a request for the
  -- registration of an admin, or the server was restarted with what Redis held.
  pub HasNoAdmin-IsResting :
      (w w' : State r d jwt) (life : Life r d jwt w w')
      → IsResting w.clock
      → HasNoAdmin w.users
      → IsResting w'.clock
        ⊎ Had r d jwt (IsPromotion r tx pg b jwt) w w' life
        ⊎ Had r d jwt (IsResumed r d jwt) w w' life
  HasNoAdmin-IsResting w w' life rests none_yet = elim (Life-IsResting r d jwt w w' life rests) [
    | inl still ↦ inl still
    | inr (inl started) ↦ inr (inl (promoted_before w w' life none_yet started))
    | inr (inr resumed) ↦ inr (inr resumed)
  ]
