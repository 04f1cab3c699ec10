-- ===== src/Auth/Repo/Creation.antt =====
-- internal/auth/pg_repo.go: what a user is that `CreateUser` creates.
use pomodoro_backend.Base.{
  String, ◌≡◌, refl, sym, ◌∙◌, ◌⊎◌, inl, inr, true, false, Option, Option-cases, Sum-cases, none,
  some, arith,
}
use pomodoro_backend.Auth.User.{User}
use pomodoro_backend.Auth.Email.{matches_email}
use pomodoro_backend.Auth.Repo.{
  Database, DbError, UserRow, CreateUserParams, convert_string_to_user_role, convert_fields,
  convert_user_to_params, is_missing, text_of, validate_new_user, inserted, insert_params,
  store_user, create_user,
}

module _ (d : Database) where
  -- A user without an error: the name and the email are there, the email is of the format, and
  -- the lookup of each returns an error.
  pub record IsNew (db : d.Store) (user : User) : Type 0 where
    pub name : is_missing user.username ≡ false
    pub email : is_missing user.email ≡ false
    pub format : matches_email (text_of user.email) ≡ true
    pub unknown_name : (e : DbError) × (d.get_user_by_username db (text_of user.username) ≡ inr e)
    pub unknown_email : (e : DbError) × (d.get_user_by_email db (text_of user.email) ≡ inr e)

  pub validate_new_user-IsNew :
      (db : d.Store) (user : User) → validate_new_user d db user ≡ none → IsNew db user
  unfolding validate_new_user
  validate_new_user-IsNew db user h =
      elim (Sum-cases (d.get_user_by_username db (text_of user.username))) [
        | inl (row, e) ↦ ground arith
        | inr (x, e) ↦ elim (Sum-cases (d.get_user_by_email db (text_of user.email))) [
          | inl (row, f) ↦ ground arith
          | inr (y, f) ↦ record {
            name = ground arith;
            email = ground arith;
            format = ground arith;
            unknown_name = (x, e);
            unknown_email = (y, f);
          }
        ]
      ]

  abbrev params_of : User → String → CreateUserParams
  params_of user hash = record {
    username = text_of user.username;
    email = text_of user.email;
    password_hash = hash;
    role = convert_string_to_user_role (text_of user.role);
  }

  abbrev with_row : User → UserRow → User
  with_row user row = record user { id = some row.id; created_at = some row.created_at }

  pub convert_fields_lem :
      (name email role : Option String) (hash : String) (params : CreateUserParams)
      → convert_fields name email (some hash) role ≡ inl params
      → params ≡ record {
        username = text_of name;
        email = text_of email;
        password_hash = hash;
        role = convert_string_to_user_role (text_of role);
      }
  unfolding convert_fields
  convert_fields_lem name email role hash params h = ground arith

  inserted_lem :
      (user : User) (res : d.Store × (UserRow ⊎ DbError)) (db' : d.Store) (user' : User)
      → inserted d user res ≡ (db', user', none)
      → (row : UserRow) × (res ≡ (db', inl row)) × (user' ≡ with_row user row)
  inserted_lem user (x, inl row) db' user' h = (row, ground arith, ground arith)
  inserted_lem user (x, inr e) db' user' h = ground arith

  insert_params_lem :
      (db : d.Store) (user : User) (res : CreateUserParams ⊎ String) (db' : d.Store) (user' : User)
      → insert_params d db user res ≡ (db', user', none)
      → (params : CreateUserParams) × (row : UserRow) × (res ≡ inl params)
        × (d.insert_user db params ≡ (db', inl row))
        × (user' ≡ with_row user row)
  insert_params_lem db user (inl params) db' user' h =
      let (row, e, f) = inserted_lem user (d.insert_user db params) db' user' h in
      (params, row, refl, e, f)
  insert_params_lem db user (inr x) db' user' h = ground arith

  -- The user was inserted in the database with the hash of the password, and has the id and the
  -- time of its row.
  pub record IsInserted (db : d.Store) (user : User) (db' : d.Store) (user' : User)
      (password hash : String) (row : UserRow) : Type 0 where
    pub given : user.password ≡ some password
    pub hashed : d.hash_password password ≡ inl hash
    pub row_of : d.insert_user db (params_of user hash) ≡ (db', inl row)
    pub updated : user' ≡ with_row (record user { password_hash = some hash }) row

  pub store_user_run :
      (db : d.Store) (user : User) (password hash : String)
      → d.hash_password password ≡ inl hash
      → let hashed = record user { password_hash = some hash } in
        store_user d db password user ≡ insert_params d db hashed (convert_user_to_params hashed)
  unfolding store_user
  store_user_run db user password hash g = rw (g, store_user)

  pub create_user_run :
      (db : d.Store) (user : User) (password : String)
      → user.password ≡ some password
      → validate_new_user d db user ≡ none
      → create_user d db user ≡ store_user d db password user
  unfolding create_user
  create_user_run db user password e f = ground arith

  -- If `CreateUser` returns no error, then the user had a name, and an email of the format, for
  -- which the lookups in the database returned errors, and it was inserted with the hash of its
  -- password, and got the id and the time of its row.
  pub create_user-IsInserted :
      (db : d.Store) (user : User) (db' : d.Store) (user' : User)
      → create_user d db user ≡ (db', user', none)
      → IsNew db user
        × ((password hash : String) × (row : UserRow) × IsInserted db user db' user' password hash
              row)
  unfolding create_user store_user convert_fields
  create_user-IsInserted db user db' user' h = elim (Option-cases user.password) [
    | inl e ↦ ground arith
    | inr (password, e) ↦ elim (Option-cases (validate_new_user d db user)) [
      | inr (x, f) ↦ ground arith
      | inl f ↦ elim (Sum-cases (d.hash_password password)) [
        | inr (x, g) ↦ ground arith
        | inl (hash, g) ↦
            let hashed = record user { password_hash = some hash } in
            let run : create_user d db user
                ≡ insert_params d db hashed (convert_user_to_params hashed) =
              create_user_run db user password e f ∙ store_user_run db user password hash g in
            let (params, row, fields, put, same) =
              insert_params_lem db hashed (convert_user_to_params hashed) db' user' (sym run ∙ h) in
            let at = convert_fields_lem user.username user.email user.role hash params fields in
            (
              validate_new_user-IsNew db user f,
              (
                password,
                hash,
                row,
                record { given = e; hashed = g; row_of = cc (put, at); updated = same },
              ),
            )
      ]
    ]
  ]
