-- ===== src/Auth/Laws.antt =====
-- The documented behaviour of what internal/auth calls: the tables of scripts/postgres/schema.sql
-- behind the queries of internal/auth/query/auth.sql, and the packages bcrypt and jwt.
use pomodoro_backend.Base.{
  ◌-◌, ◌%◌, ◌≤◌, ◌<◌, String, ◌≡◌, ◌⊎◌, inl, true, none, some, [], ◌∷◌, split_on,
}
use pomodoro_backend.Clock.Time.{Time, second}
use pomodoro_backend.Auth.User.{Jwt, JwtClaims}
use pomodoro_backend.Auth.Repo.{Database, UserRow, CreateUserParams}

pub record IsDatabase (d : Database) : Type 0 where
  -- A row that was inserted holds what it was given, and is found by its name, with its hash.
  pub inserted_name :
      (db db' : d.Store) (p : CreateUserParams) (row : UserRow)
      → d.insert_user db p ≡ (db', inl row)
      → row.username ≡ p.username
  pub inserted_role :
      (db db' : d.Store) (p : CreateUserParams) (row : UserRow)
      → d.insert_user db p ≡ (db', inl row)
      → row.role ≡ p.role
  pub by_username-insert :
      (db db' : d.Store) (p : CreateUserParams) (row : UserRow)
      → d.insert_user db p ≡ (db', inl row)
      → d.get_user_by_username db' p.username ≡ inl row
  pub hash-insert :
      (db db' : d.Store) (p : CreateUserParams) (row : UserRow)
      → d.insert_user db p ≡ (db', inl row)
      → d.get_password_hash db' p.username ≡ inl p.password_hash
  -- A query by the name returns a row of that name, whose role is of the type user_role.
  pub found_name :
      (db : d.Store) (name : String) (row : UserRow)
      → d.get_user_by_username db name ≡ inl row
      → row.username ≡ name
  pub found_role :
      (db : d.Store) (name : String) (row : UserRow)
      → d.get_user_by_username db name ≡ inl row
      → (row.role ≡ "USER") ⊎ (row.role ≡ "ADMIN")
  -- A password fits its hash.
  pub fits-hash :
      (password hash : String)
      → d.hash_password password ≡ inl hash
      → d.fits_hash hash password ≡ true

-- The times in a token are whole seconds.
pub record IsJwt (jwt : Jwt) : Type 0 where
  pub sign_total : (c : JwtClaims) → (token : String) × (jwt.sign c ≡ some token)
  pub no_spaces :
      (c : JwtClaims) (token : String) → jwt.sign c ≡ some token → split_on 32 token ≡ token ∷ []
  pub parse-sign :
      (now : Time) (c : JwtClaims) (token : String)
      → jwt.sign c ≡ some token
      → c.not_before ≤ now
      → now < c.expires_at - c.expires_at % second
      → (read : JwtClaims) × (jwt.parse now token ≡ some (read, true))
        × (read.username ≡ c.username)
        × (read.user_id ≡ c.user_id)
  pub parse-sign_expired :
      (now : Time) (c : JwtClaims) (token : String)
      → jwt.sign c ≡ some token
      → c.expires_at ≤ now
      → jwt.parse now token ≡ none
