-- ===== src/Auth/Queries/Growth.antt =====
-- internal/auth/pg_repo.go and cmd/auth_handler.go: what registrations do to the table of the users.
use mathlib.Core.Path.{subst}
use pomodoro_backend.Base.{
  String, ◌≡◌, refl, sym, ap, ◌∙◌, ◌⊎◌, inl, inr, Option, Option-cases, Sum-cases, none, some, List,
  ◌∷◌, arith,
}
use pomodoro_backend.Clock.Time.{Time}
use pomodoro_backend.Auth.User.{
  User, NewUserRequest, Jwt, new_user_from_request, new_admin_user_from_request,
}
use pomodoro_backend.Auth.Repo.{
  Database, UserRow, CreateUserParams, DbError, text_of, validate_new_user,
  convert_string_to_user_role, create_user, store_user, convert_user_to_params, insert_params,
  inserted,
}
use pomodoro_backend.Auth.Repo.Creation.{store_user_run, create_user_run, convert_fields_lem}
use pomodoro_backend.Auth.Handlers.{
  Request, creation_answer, register, register_user, register_admin_user,
}
use pomodoro_backend.Auth.Queries.{DbTx, Bcrypt, repository}
use pomodoro_backend.Auth.Queries.Table.{UserRecord}
use pomodoro_backend.Auth.Queries.Postgres.{IsPostgres}
use pomodoro_backend.Auth.Queries.Repository.{insertion_lem}

module _ (d : Database) where
  -- A store is left, or is that of one insertion, of a user with a role.
  abbrev Changed : String → d.Store → d.Store → Type 0
  Changed role db db' =
      (db' ≡ db) ⊎ ((p : CreateUserParams) × (p.role ≡ role) × (db' ≡ (d.insert_user db p).0))

  inserted-store :
      (user : User) (res : d.Store × (UserRow ⊎ DbError)) → (inserted d user res).0 ≡ res.0
  inserted-store user (db, inl row) = refl
  inserted-store user (db, inr e) = refl

  insert_params-Changed :
      (role : String) (db : d.Store) (user : User) (res : CreateUserParams ⊎ String)
      → ((p : CreateUserParams) → res ≡ inl p → p.role ≡ role)
      → Changed role db (insert_params d db user res).0
  insert_params-Changed role db user (inr e) h = inl refl
  insert_params-Changed role db user (inl p) h =
      inr (p, h p refl, inserted-store user (d.insert_user db p))

  store_user-Changed :
      (role : String) (db : d.Store) (password : String) (user : User)
      → convert_string_to_user_role (text_of user.role) ≡ role
      → Changed role db (store_user d db password user).0
  unfolding store_user
  store_user-Changed role db password user e = elim (Sum-cases (d.hash_password password)) [
    | inr (x, g) ↦ rw (g, store_user) (inl refl)
    | inl (hash, g) ↦
        let hashed = record user { password_hash = some hash } in
        subst (λ (res : d.Store × User × Option String). Changed role db res.0)
          (sym (store_user_run d db user password hash g))
          (insert_params-Changed role db hashed (convert_user_to_params hashed) (λ p f.
            ap (λ (x : CreateUserParams). x.role)
              (convert_fields_lem d user.username user.email user.role hash p f)
            ∙ e))
  ]

  create_user-Changed :
      (role : String) (db : d.Store) (user : User)
      → convert_string_to_user_role (text_of user.role) ≡ role
      → Changed role db (create_user d db user).0
  unfolding create_user
  create_user-Changed role db user e = elim (Option-cases user.password) [
    | inl f ↦ rw (create_user, f) (inl refl)
    | inr (password, f) ↦ elim (Option-cases (validate_new_user d db user)) [
      | inr (x, g) ↦ rw (create_user, f, g) (inl refl)
      | inl g ↦
          subst (λ (res : d.Store × User × Option String). Changed role db res.0)
            (sym (create_user_run d db user password f g))
            (store_user-Changed role db password user e)
    ]
  ]

  module _ (jwt : Jwt) where
    answer-store :
        (now : Time) (title : String) (res : d.Store × User × Option String)
        → (creation_answer d jwt now title res).0 ≡ res.0
    unfolding creation_answer
    answer-store now title (db, user, none) = refl
    answer-store now title (db, user, some e) = refl

    register-Changed :
        (role : String) (now : Time) (title : String) (req : NewUserRequest) (user : User)
        (db : d.Store)
        → convert_string_to_user_role (text_of user.role) ≡ role
        → Changed role db (register d jwt now title req user db).0
    unfolding register
    register-Changed role now title req user db e =
        let made = create_user-Changed role db (record user { email = some req.email }) e in
        let same =
          answer-store now title (create_user d db (record user { email = some req.email })) in
        ground (arith, made, same)

    register_user-Changed :
        (now : Time) (req : Request NewUserRequest) (db : d.Store)
        → Changed "USER" db (register_user d jwt now req db).0
    unfolding register_user new_user_from_request convert_string_to_user_role
    register_user-Changed now req db = elim (Option-cases req.body) [
      | inl e ↦ ground (arith, e)
      | inr (body, e) ↦
          let made =
            register-Changed "USER" now "Failed to create user" body (new_user_from_request body) db
              refl in
          ground (arith, e, made)
    ]

    register_admin_user-Changed :
        (now : Time) (req : Request NewUserRequest) (db : d.Store)
        → Changed "ADMIN" db (register_admin_user d jwt now req db).0
    unfolding register_admin_user new_admin_user_from_request convert_string_to_user_role
    register_admin_user-Changed now req db = elim (Option-cases req.body) [
      | inl e ↦ ground (arith, e)
      | inr (body, e) ↦
          let made =
            register-Changed "ADMIN" now "Failed to create admin user" body
              (new_admin_user_from_request body) db refl in
          ground (arith, e, made)
    ]

-- A table is left, or gets one row with a role in front.
abbrev pub Grown : (role : String) → (users users' : List UserRecord) → Type 0
Grown role users users' =
    (users' ≡ users) ⊎ ((u : UserRecord) × (u.role ≡ role) × (users' ≡ u ∷ users))

module _ (tx : DbTx) (pg : IsPostgres tx) (b : Bcrypt) (jwt : Jwt) where
  Changed-Grown :
      (role : String) (db db' : tx.Store)
      → Changed (repository tx b) role db db'
      → Grown role (pg.rows db) (pg.rows db')
  Changed-Grown role db db' (inl same) = inl (ap pg.rows same)
  Changed-Grown role db db' (inr (p, e, at)) = elim (insertion_lem tx pg b db p) [
    | inl (u, made, res, put) ↦ inr (u, made.role ∙ e, ap pg.rows at ∙ put)
    | inr (x, res, same) ↦ inl (ap pg.rows at ∙ same)
  ]

  pub register_user-Grown :
      (now : Time) (req : Request NewUserRequest) (db : tx.Store)
      → Grown "USER" (pg.rows db) (pg.rows (register_user (repository tx b) jwt now req db).0)
  register_user-Grown now req db =
      Changed-Grown "USER" db _ (register_user-Changed (repository tx b) jwt now req db)

  pub register_admin_user-Grown :
      (now : Time) (req : Request NewUserRequest) (db : tx.Store)
      → Grown "ADMIN"
          (pg.rows db)
          (pg.rows (register_admin_user (repository tx b) jwt now req db).0)
  register_admin_user-Grown now req db =
      Changed-Grown "ADMIN" db _ (register_admin_user-Changed (repository tx b) jwt now req db)
