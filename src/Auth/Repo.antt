-- ===== src/Auth/Repo.antt =====
-- internal/auth/pg_repo.go: the users in the database.
pub mod Creation
use text.Mathlib.Text.{◌==◌ as str_eq}
use pomodoro_backend.Base.{
  String, Bool, true, false, not, ◌||◌, Option, none, some, ◌⊎◌, inl, inr, if◌then◌else◌, append,
  contains, is_blank,
}
use pomodoro_backend.Clock.Time.{Time}
use pomodoro_backend.Auth.User.{User, UserLoginCredentials}
use pomodoro_backend.Auth.Email.{matches_email}

-- The rows that the queries return, with the text of the id.
pub record UserRow : Type 0 where
  pub id : String
  pub username : String
  pub email : String
  pub role : String
  pub created_at : Time

pub record CreateUserParams : Type 0 where
  pub username : String
  pub email : String
  pub password_hash : String
  pub role : String

-- An error by its text; `unique` says that it is a `pq.Error` of code 23505.
pub record DbError : Type 0 where
  pub text : String
  pub unique : Bool

-- What the repository calls of its queries, and of bcrypt: the hash of a password at the cost
-- 12, with the text of an error, and whether a password fits a hash.
pub record Database : Type 1 where
  pub Store : Type 0
  pub get_user_by_username : Store → String → UserRow ⊎ DbError
  pub get_user_by_email : Store → String → UserRow ⊎ DbError
  pub get_password_hash : Store → String → String ⊎ DbError
  pub insert_user : Store → CreateUserParams → Store × (UserRow ⊎ DbError)
  pub hash_password : String → String ⊎ String
  pub fits_hash : (hash password : String) → Bool

unfoldable pub convert_string_to_user_role : String → String
convert_string_to_user_role role =
    if str_eq role "ADMIN" then "ADMIN" else if str_eq role "USER" then "USER" else "USER"

-- `convertUserToCreateUserParams` of the four fields, none of which may be nil.
unfoldable pub convert_fields :
    (username email hash role : Option String) → CreateUserParams ⊎ String
unfolding convert_string_to_user_role
convert_fields (some name) (some email) (some hash) (some role) =
    if not (matches_email email)
    then inr "invalid email format"
    else inl (record {
      username = name;
      email = email;
      password_hash = hash;
      role = convert_string_to_user_role role;
    })
convert_fields _ _ _ _ = inr "missing required fields"

-- The parameters of the query, or the text of an error.
abbrev pub convert_user_to_params : User → CreateUserParams ⊎ String
convert_user_to_params user = convert_fields user.username user.email user.password_hash user.role

abbrev pub user_of_row : UserRow → User
user_of_row row = record {
  id = some row.id;
  username = some row.username;
  password = none;
  password_hash = none;
  email = some row.email;
  role = some row.role;
  created_at = some row.created_at;
}

-- `p == nil || strings.TrimSpace(*p) == ""`
abbrev pub is_missing : Option String → Bool
is_missing none = true
is_missing (some s) = is_blank s

abbrev pub text_of : Option String → String
text_of none = ""
text_of (some s) = s

module _ (d : Database) where
  open d use {
    Store, get_user_by_username, get_user_by_email, get_password_hash, insert_user, hash_password,
    fits_hash,
  }

  -- The answer to the lookup of the email. `fmt.Errorf` puts the text of the error behind its own.
  abbrev pub email_answer : UserRow ⊎ DbError → Option String
  email_answer (inl row) = some "email already exists"
  email_answer (inr e) =
      if not (contains e.text "no rows in result set")
      then some (append "database error during validation: " e.text)
      else none

  -- `ValidateNewUser`; `none` is the result nil.
  unfoldable pub validate_new_user : Store → User → Option String
  validate_new_user db user =
      if is_missing user.username
      then some "username is required"
      else if is_missing user.email
      then some "email is required"
      else if not (matches_email (text_of user.email))
      then some "invalid email format"
      else elim (get_user_by_username db (text_of user.username)) [
        | inl row ↦ some "username already exists"
        | inr e ↦ email_answer (get_user_by_email db (text_of user.email))
      ]

  abbrev pub insertion_error : DbError → String
  insertion_error e = if e.unique then "username or email already exists" else e.text

  -- The end of `CreateUser`: the user that is given gets the id and the time of the new row.
  abbrev pub inserted : User → Store × (UserRow ⊎ DbError) → Store × User × Option String
  inserted user (db, inl row) =
      (db, record user { id = some row.id; created_at = some row.created_at }, none)
  inserted user (db, inr e) = (db, user, some (insertion_error e))

  abbrev pub insert_params : Store → User → CreateUserParams ⊎ String → Store × User × Option String
  insert_params db user (inr e) = (db, user, some e)
  insert_params db user (inl params) = inserted user (insert_user db params)

  -- `CreateUser` behind the validation.
  unfoldable pub store_user : Store → String → User → Store × User × Option String
  store_user db password user = elim (hash_password password) [
    | inr e ↦ (db, user, some e)
    | inl hash ↦
        let hashed = record user { password_hash = some hash } in
        insert_params db hashed (convert_user_to_params hashed)
  ]

  -- The database, the user that the pointer then points to, and the error.
  unfoldable pub create_user : Store → User → Store × User × Option String
  unfolding validate_new_user store_user
  create_user db user = elim user.password [
    | none ↦ (db, user, some "password is required")
    | some password ↦ elim (validate_new_user db user) [
      | some e ↦ (db, user, some e)
      | none ↦ store_user db password user
    ]
  ]

  -- Both results of `AuthenticateUser`; the second is the text of the error.
  unfoldable pub authenticate_user : Store → UserLoginCredentials → Bool × Option String
  authenticate_user db cred = elim (get_password_hash db cred.username) [
    | inr e ↦ (false, some "invalid credentials")
    | inl hash ↦
        if fits_hash hash cred.password then (true, none) else (false, some "invalid credentials")
  ]

  -- `none` is an error.
  unfoldable pub get_user_info : Store → String → Option User
  get_user_info db name = elim (get_user_by_username db name) [
    | inr e ↦ none
    | inl row ↦ some (user_of_row row)
  ]
