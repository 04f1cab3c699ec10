-- ===== src/Auth/Queries.antt =====
-- internal/auth/gen: the queries that sqlc generates from internal/auth/query/auth.sql, and the
-- repository over them, of internal/auth/pg_repo.go.
pub mod Table
pub mod Postgres
pub mod Repository
pub mod Growth
pub mod Race
use pomodoro_backend.Base.{
  String, Bool, true, false, Option, none, some, ◌⊎◌, inl, inr, List, [], ◌∷◌,
}
use pomodoro_backend.Clock.Time.{Time}
use pomodoro_backend.Auth.Repo.{Database, UserRow, CreateUserParams, DbError}

-- A value of a column, as the driver has it for `Scan`: a uuid by its text.
pub data Cell : Type 0 where
  null : Cell
  text_cell : String → Cell
  uuid_cell : String → Cell
  time_cell : Time → Cell

-- `DBTX`, which the package pgx implements: `QueryRow` of a statement with its parameters leaves a
-- store and gives a row, or an error, which `Scan` returns. `mismatch` is the error of `Scan` where
-- a column does not fit the variable for it.
pub record DbTx : Type 1 where
  pub Store : Type 0
  pub query_row : Store → (sql : String) → (args : List String) → Store × (List Cell ⊎ DbError)
  pub mismatch : DbError

abbrev pub create_user_sql : String
create_user_sql =
    "-- name: CreateUser :one\nINSERT INTO users (\n    username,\n    email,\n    password_hash,\n    role\n) VALUES (\n    $1,\n    $2,\n    $3,\n    $4\n)\nRETURNING id, username, email, role, created_at\n"

abbrev pub get_password_hash_by_username_sql : String
get_password_hash_by_username_sql =
    "-- name: GetPasswordHashByUsername :one\nSELECT password_hash FROM users WHERE username = $1\n"

abbrev pub get_user_by_email_sql : String
get_user_by_email_sql =
    "-- name: GetUserByEmail :one\nSELECT id, username, email, role, created_at FROM users WHERE email = $1\n"

abbrev pub get_user_by_username_sql : String
get_user_by_username_sql =
    "-- name: GetUserByUsername :one\nSELECT id, username, email, role, created_at FROM users WHERE username = $1\n"

-- `CreateUserRow`, `GetUserByEmailRow` and `GetUserByUsernameRow`, which have the same fields. A
-- `pgtype.UUID` or `pgtype.Timestamp` that is not valid is `none`.
pub record QueriedUser : Type 0 where
  pub id : Option String
  pub username : String
  pub email : String
  pub role : String
  pub created_at : Option Time

abbrev pub scan_text : Cell → Option String
scan_text (text_cell s) = some s
scan_text _ = none

abbrev pub scan_uuid : Cell → Option (Option String)
scan_uuid (uuid_cell s) = some (some s)
scan_uuid null = some none
scan_uuid _ = none

abbrev pub scan_time : Cell → Option (Option Time)
scan_time (time_cell t) = some (some t)
scan_time null = some none
scan_time _ = none

-- `UserRole.Scan`, of a source that is a text; `none` is its error.
abbrev pub scan_role : Cell → Option String
scan_role (text_cell s) = some s
scan_role _ = none

-- `NullUserRole`, with its `Scan` and its `Value`.
pub record NullUserRole : Type 0 where
  pub user_role : String
  pub valid : Bool

unfoldable pub scan_null_role : Cell → Option NullUserRole
scan_null_role null = some (record { user_role = ""; valid = false })
scan_null_role (text_cell s) = some (record { user_role = s; valid = true })
scan_null_role _ = none

unfoldable pub null_role_value : NullUserRole → Cell
null_role_value ns = elim ns.valid [ false ↦ null | true ↦ text_cell ns.user_role ]

abbrev pub queried :
    (id : Option (Option String)) (name email role : Option String) (at : Option (Option Time))
    → Option QueriedUser
queried (some id) (some name) (some email) (some role) (some at) =
    some (record { id = id; username = name; email = email; role = role; created_at = at })
queried _ _ _ _ _ = none

-- The five variables of `Scan`.
abbrev pub scan_columns : List Cell → Option QueriedUser
scan_columns (id ∷ name ∷ email ∷ role ∷ at ∷ []) =
    queried (scan_uuid id) (scan_text name) (scan_text email) (scan_role role) (scan_time at)
scan_columns _ = none

abbrev pub scan_column : List Cell → Option String
scan_column (hash ∷ []) = scan_text hash
scan_column _ = none

abbrev pub fitted {ℓ} : {A : Type ℓ} → DbError → Option A → A ⊎ DbError
fitted e none = inr e
fitted e (some a) = inl a

module _ (tx : DbTx) where
  open tx use {Store, query_row, mismatch}

  abbrev pub scanned {ℓ} : {A : Type ℓ} → (List Cell → Option A) → List Cell ⊎ DbError → A ⊎ DbError
  scanned f (inl row) = fitted mismatch (f row)
  scanned f (inr e) = inr e

  unfoldable pub insert_user : Store → CreateUserParams → Store × (QueriedUser ⊎ DbError)
  insert_user db p =
      let (db', row) =
        query_row db create_user_sql (p.username ∷ p.email ∷ p.password_hash ∷ p.role ∷ []) in
      (db', scanned scan_columns row)

  -- The queries that only read give no store.
  unfoldable pub get_password_hash_by_username : Store → String → String ⊎ DbError
  get_password_hash_by_username db name =
      scanned scan_column (query_row db get_password_hash_by_username_sql (name ∷ [])).1

  unfoldable pub get_user_by_email : Store → String → QueriedUser ⊎ DbError
  get_user_by_email db email =
      scanned scan_columns (query_row db get_user_by_email_sql (email ∷ [])).1

  unfoldable pub get_user_by_username : Store → String → QueriedUser ⊎ DbError
  get_user_by_username db name =
      scanned scan_columns (query_row db get_user_by_username_sql (name ∷ [])).1

-- What the program calls of the package bcrypt.
pub record Bcrypt : Type 0 where
  pub generate_from_password : String → String ⊎ String
  pub fits_hash : (hash password : String) → Bool

-- `ID.String()` of an id that is not valid is the empty text, and its time is Go's zero time.
abbrev pub id_text : Option String → String
id_text none = ""
id_text (some s) = s

abbrev pub time_value : Option Time → Time
time_value none = 0
time_value (some t) = t

abbrev pub row_of_query : QueriedUser → UserRow
row_of_query q = record {
  id = id_text q.id;
  username = q.username;
  email = q.email;
  role = q.role;
  created_at = time_value q.created_at;
}

abbrev pub converted : QueriedUser ⊎ DbError → UserRow ⊎ DbError
converted (inl q) = inl (row_of_query q)
converted (inr e) = inr e

-- `NewPostgresRepository`: the queries of a connection, with the conversions of their rows.
abbrev pub repository : DbTx → Bcrypt → Database
repository tx bcrypt = record {
  Store = tx.Store;
  get_user_by_username = λ db name. converted (get_user_by_username tx db name);
  get_user_by_email = λ db email. converted (get_user_by_email tx db email);
  get_password_hash = get_password_hash_by_username tx;
  insert_user = λ db p. let (db', res) = insert_user tx db p in (db', converted res);
  hash_password = bcrypt.generate_from_password;
  fits_hash = bcrypt.fits_hash;
}

-- `NewAuthRepository`: nil for a connection that is nil.
abbrev pub new_auth_repository : Option DbTx → Bcrypt → Option Database
new_auth_repository none bcrypt = none
new_auth_repository (some tx) bcrypt = some (repository tx bcrypt)
