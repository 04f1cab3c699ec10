-- ===== src/Auth/Queries/Race.antt =====
-- internal/auth/pg_repo.go: two registrations of one name, where the second was validated before
-- the first was inserted.
use pomodoro_backend.Base.{
  String, ◌≡◌, refl, sym, ap, ◌∙◌, ◌⊎◌, inl, inr, Option-cases, none, some, contains, has_prefix,
  append, arith,
}
use pomodoro_backend.Clock.Time.{Time}
use pomodoro_backend.Auth.User.{User, Jwt}
use pomodoro_backend.Auth.Repo.{
  Database, UserRow, CreateUserParams, DbError, text_of, convert_string_to_user_role,
  convert_fields, convert_user_to_params, inserted, insertion_error, insert_params,
  validate_new_user, create_user, store_user,
}
use pomodoro_backend.Auth.Repo.Creation.{IsNew, validate_new_user-IsNew, store_user_run}
use pomodoro_backend.Auth.Handlers.{failed, creation_answer, creation_failure}
use pomodoro_backend.Auth.Queries.{DbTx, Bcrypt, repository}
use pomodoro_backend.Auth.Queries.Table.{UserRecord, select, IsRole}
use pomodoro_backend.Auth.Queries.Postgres.{IsPostgres, duplicate_key, user_row, answered}
use pomodoro_backend.Auth.Queries.Repository.{username_lookup, insertion_refused}

module _ (tx : DbTx) (pg : IsPostgres tx) (b : Bcrypt) (jwt : Jwt) where
  abbrev d : Database
  d = repository tx b

  role_valid : (role : String) → IsRole (convert_string_to_user_role role)
  unfolding convert_string_to_user_role
  role_valid role = ground arith

  abbrev IsDuplicate : DbError → Type 0
  IsDuplicate e = (e ≡ duplicate_key "users_username_key") ⊎ (e ≡ duplicate_key "users_email_key")

  -- The insertion of a name that is taken leaves the table.
  insertion_taken :
      (db : tx.Store) (p : CreateUserParams) (u : UserRecord)
      → IsRole p.role
      → select (λ x. x.username) p.username (pg.rows db) ≡ some u
      → (e : DbError) × IsDuplicate e
        × ((d.insert_user db p).1 ≡ inr e)
        × (pg.rows (d.insert_user db p).0 ≡ pg.rows db)
  insertion_taken db p u role at = elim (pg.taken db p u role (inl at)) [
    | inl e ↦ let (res, same) = insertion_refused tx pg b db p _ e in (_, inl refl, res, same)
    | inr e ↦ let (res, same) = insertion_refused tx pg b db p _ e in (_, inr refl, res, same)
  ]

  refused :
      (title : String) (e : DbError)
      → IsDuplicate e
      → creation_failure title (insertion_error d e) ≡ failed 500 title "Internal server error"
  unfolding creation_failure contains has_prefix append
  refused title e (inl h) = rw h refl
  refused title e (inr h) = rw h refl

  refused_answer :
      (now : Time) (title : String) (user : User) (res : tx.Store × (UserRow ⊎ DbError))
      (e : DbError)
      → IsDuplicate e
      → res.1 ≡ inr e
      → creation_answer d jwt now title (inserted d user res)
        ≡ (res.0, failed 500 title "Internal server error")
  unfolding creation_answer
  refused_answer now title user (db, inl row) e h at = ground arith
  refused_answer now title user (db, inr x) e h at =
      let same : e ≡ x = ground arith in rw (sym same, refused title e h) refl

  -- The parameters of a user that was validated.
  params_of_valid :
      (earlier : tx.Store) (user : User) (role hash : String)
      → IsNew d earlier user
      → user.role ≡ some role
      → let hashed = record user { password_hash = some hash } in
        (p : CreateUserParams) × (convert_user_to_params hashed ≡ inl p)
        × (p.username ≡ text_of user.username)
        × IsRole p.role
  unfolding convert_fields
  params_of_valid earlier user role hash new e = elim (Option-cases user.username) [
    | inl f ↦ absurd (ground (arith, new.name))
    | inr (name, f) ↦ elim (Option-cases user.email) [
      | inl g ↦ absurd (ground (arith, new.email))
      | inr (email, g) ↦ (
        record {
          username = name;
          email = email;
          password_hash = hash;
          role = convert_string_to_user_role role;
        },
        ground (arith, new.format),
        ground arith,
        role_valid role,
      )
    ]
  ]

  stored_late :
      (now : Time) (title : String) (earlier db : tx.Store) (user : User)
      (password hash role : String) (u : UserRecord)
      → validate_new_user d earlier user ≡ none
      → user.role ≡ some role
      → d.hash_password password ≡ inl hash
      → select (λ x. x.username) (text_of user.username) (pg.rows db) ≡ some u
      → let late = creation_answer d jwt now title (store_user d db password user) in
        (late.1 ≡ failed 500 title "Internal server error") × (pg.rows late.0 ≡ pg.rows db)
  stored_late now title earlier db user password hash role u valid r hashing at =
      let new = validate_new_user-IsNew d earlier user valid in
      let hashed = record user { password_hash = some hash } in
      let (p, params, name, ok) = params_of_valid earlier user role hash new r in
      let (e, duplicate, res, same) = insertion_taken db p u ok (rw name at) in
      let run : store_user d db password user ≡ inserted d hashed (d.insert_user db p) =
        store_user_run d db user password hash hashing ∙ ap (insert_params d db hashed) params in
      let answer =
        ap (creation_answer d jwt now title) run
        ∙ refused_answer now title hashed (d.insert_user db p) e duplicate res in
      (ap (λ x. x.1) answer, ap (λ x. pg.rows x.0) answer ∙ same)

  refused_early :
      (now : Time) (earlier db : tx.Store) (user : User) (password : String) (u : UserRecord)
      → user.password ≡ some password
      → validate_new_user d earlier user ≡ none
      → select (λ x. x.username) (text_of user.username) (pg.rows db) ≡ some u
      → create_user d db user ≡ (db, user, some "username already exists")
  unfolding create_user validate_new_user
  refused_early now earlier db user password u given valid at =
      let new = validate_new_user-IsNew d earlier user valid in
      let known = username_lookup tx pg b db (text_of user.username) ∙ ap (answered user_row) at in
      ground (arith, new.name, new.email, new.format, known, given)

  -- A user with a role and a password that bcrypt hashes, who is valid for one state of a database
  -- that answers, while in another one, as after a registration of the same name in between, a user
  -- has the name: the insertion into the second leaves the table, and the answer has the status 500
  -- and the error of the server, where a whole registration there leaves the database and has an
  -- answer with the status 409.
  pub late_registration :
      (now : Time) (title : String) (earlier db : tx.Store) (user : User)
      (password hash role : String) (u : UserRecord)
      → user.password ≡ some password
      → user.role ≡ some role
      → d.hash_password password ≡ inl hash
      → validate_new_user d earlier user ≡ none
      → select (λ x. x.username) (text_of user.username) (pg.rows db) ≡ some u
      → let late = creation_answer d jwt now title (store_user d db password user) in
        (late.1 ≡ failed 500 title "Internal server error")
        × (pg.rows late.0 ≡ pg.rows db)
        × (creation_answer d jwt now title (create_user d db user)
            ≡ (db, failed 409 "User already exists" "username already exists"))
  unfolding creation_answer creation_failure contains has_prefix
  late_registration now title earlier db user password hash role u given r hashing valid at =
      let (answer, same) =
        stored_late now title earlier db user password hash role u valid r hashing at in
      let early = refused_early now earlier db user password u given valid at in
      (answer, same, ap (creation_answer d jwt now title) early)
