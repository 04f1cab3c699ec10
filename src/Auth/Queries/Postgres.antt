-- ===== src/Auth/Queries/Postgres.antt =====
-- The documented behaviour of PostgreSQL behind pgx for the statements of internal/auth/gen on the
-- table of scripts/postgres/schema.sql, as long as it answers, and what the repository is then.
use pomodoro_backend.Base.{
  String, ◌≡◌, true, false, ◌⊎◌, inl, inr, Option, none, some, List, [], ◌∷◌, append,
}
use pomodoro_backend.Auth.Repo.{UserRow, CreateUserParams, DbError}
use pomodoro_backend.Auth.Queries.{
  Cell, text_cell, uuid_cell, time_cell, DbTx, Bcrypt, create_user_sql,
  get_password_hash_by_username_sql, get_user_by_email_sql, get_user_by_username_sql,
}
use pomodoro_backend.Auth.Queries.Table.{UserRecord, select, IsRole, IsUsers, IsRowOf}

abbrev pub user_cells : UserRecord → List Cell
user_cells u =
    uuid_cell u.id
    ∷ text_cell u.username
    ∷ text_cell u.email
    ∷ text_cell u.role
    ∷ time_cell u.created_at
    ∷ []

abbrev pub hash_cells : UserRecord → List Cell
hash_cells u = text_cell u.password_hash ∷ []

-- The error of `pgx.ErrNoRows`; no error of pgx is a `pq.Error`.
abbrev pub no_rows : DbError
no_rows = record { text = "no rows in result set"; unique = false }

-- The error for a name or an email that is taken, by the constraint.
abbrev pub duplicate_key : String → DbError
duplicate_key constraint = record {
  text =
      append "ERROR: duplicate key value violates unique constraint \""
        (append constraint "\" (SQLSTATE 23505)");
  unique = false;
}

abbrev pub found : (UserRecord → List Cell) → Option UserRecord → List Cell ⊎ DbError
found cells none = inr no_rows
found cells (some u) = inl (cells u)

abbrev pub insertion : (tx : DbTx) → tx.Store → CreateUserParams → tx.Store × (List Cell ⊎ DbError)
insertion tx db p =
    tx.query_row db create_user_sql (p.username ∷ p.email ∷ p.password_hash ∷ p.role ∷ [])

-- The table that a store holds, and what the statements do on it.
pub record IsPostgres (tx : DbTx) : Type 0 where
  pub rows : tx.Store → List UserRecord
  pub users : (db : tx.Store) → IsUsers (rows db)
  pub by_username :
      (db : tx.Store) (name : String)
      → (tx.query_row db get_user_by_username_sql (name ∷ [])).1
        ≡ found user_cells (select (λ u. u.username) name (rows db))
  pub by_email :
      (db : tx.Store) (email : String)
      → (tx.query_row db get_user_by_email_sql (email ∷ [])).1
        ≡ found user_cells (select (λ u. u.email) email (rows db))
  pub hash_by_username :
      (db : tx.Store) (name : String)
      → (tx.query_row db get_password_hash_by_username_sql (name ∷ [])).1
        ≡ found hash_cells (select (λ u. u.username) name (rows db))
  -- An insertion puts a row in front, or leaves the table and returns an error.
  pub inserted :
      (db : tx.Store) (p : CreateUserParams)
      → ((u : UserRecord) × IsRowOf p u
          × ((insertion tx db p).1 ≡ inl (user_cells u))
          × (rows (insertion tx db p).0 ≡ u ∷ rows db))
        ⊎ ((e : DbError) × ((insertion tx db p).1 ≡ inr e) × (rows (insertion tx db p).0 ≡ rows db))
  -- The constraints `UNIQUE` of the name and the email.
  pub taken :
      (db : tx.Store) (p : CreateUserParams) (u : UserRecord)
      → IsRole p.role
      → (select (λ x. x.username) p.username (rows db) ≡ some u)
        ⊎ (select (λ x. x.email) p.email (rows db) ≡ some u)
      → ((insertion tx db p).1 ≡ inr (duplicate_key "users_username_key"))
        ⊎ ((insertion tx db p).1 ≡ inr (duplicate_key "users_email_key"))

-- A password fits a hash that was made of it.
pub record IsBcrypt (b : Bcrypt) : Type 0 where
  pub fits-generate :
      (password hash : String)
      → b.generate_from_password password ≡ inl hash
      → b.fits_hash hash password ≡ true

abbrev pub user_row : UserRecord → UserRow
user_row u = record {
  id = u.id;
  username = u.username;
  email = u.email;
  role = u.role;
  created_at = u.created_at;
}

abbrev pub answered {ℓ} : {A : Type ℓ} → (UserRecord → A) → Option UserRecord → A ⊎ DbError
answered f none = inr no_rows
answered f (some u) = inl (f u)
