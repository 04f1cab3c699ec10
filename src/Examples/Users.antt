-- ===== src/Examples/Users.antt =====
-- The users with a database of one admin in memory, passwords as their own hashes, and names as
-- tokens.
use text.Mathlib.Text.{◌==◌ as str_eq}
use pomodoro_backend.Base.{
  String, ◌≡◌, ◌↔◌, ◌⊎◌, refl, inl, inr, true, false, none, some, List, [], ◌∷◌, if◌then◌else◌,
  is_blank, is_space, contains, has_prefix,
}
use pomodoro_backend.Auth.User.{
  User, NewUserRequest, UserLoginCredentials, Jwt, new_user_from_request, generate_jwt, claims_of,
}
use pomodoro_backend.Auth.Email.{matches_email}
use pomodoro_backend.Auth.Repo.{
  Database, UserRow, CreateUserParams, DbError, create_user, validate_new_user, store_user,
  convert_fields, convert_string_to_user_role, authenticate_user, get_user_info,
}
use pomodoro_backend.Auth.Repo.Creation.{IsNew, IsInserted, create_user-IsInserted}
use pomodoro_backend.Auth.Guard.{UserContext, passed, require_user_role}
use pomodoro_backend.Auth.Guard.Access.{Authorised, require_user_role_iff}
use pomodoro_backend.Auth.Handlers.{
  Request, logged_in, created, UserRegistrationResponse, login_user, login_answer, issue_token,
  register_user, register, creation_answer, welcome, registration_response,
}
use pomodoro_backend.Auth.Handlers.Answers.{
  IsLogin, login_user-IsLogin, requested, IsRegistered, register_user-IsRegistered,
}

-- A row with its hash.
abbrev Rows : Type 0
Rows = List (UserRow × String)

abbrev no_rows : DbError
no_rows = record { text = "no rows in result set"; unique = false }

abbrev find : (UserRow → String) → String → Rows → (UserRow × String) ⊎ DbError
find f s [] = inr no_rows
find f s ((row, hash) ∷ rows) =
    let rest = find f s rows in if str_eq (f row) s then inl (row, hash) else rest

abbrev row_of : (UserRow × String) ⊎ DbError → UserRow ⊎ DbError
row_of (inl (row, hash)) = inl row
row_of (inr e) = inr e

abbrev hash_of : (UserRow × String) ⊎ DbError → String ⊎ DbError
hash_of (inl (row, hash)) = inl hash
hash_of (inr e) = inr e

abbrev new_row : CreateUserParams → UserRow
new_row p = record {
  id = "7";
  username = p.username;
  email = p.email;
  role = p.role;
  created_at = 1000;
}

abbrev pub users : Database
users = record {
  Store = Rows;
  get_user_by_username = λ db s. row_of (find (λ row. row.username) s db);
  get_user_by_email = λ db s. row_of (find (λ row. row.email) s db);
  get_password_hash = λ db s. hash_of (find (λ row. row.username) s db);
  insert_user = λ db p. ((new_row p, p.password_hash) ∷ db, inl (new_row p));
  hash_password = λ p. inl p;
  fits_hash = λ hash p. str_eq hash p;
}

abbrev pub names : Jwt
names = record {
  sign = λ claims. some claims.username;
  parse = λ now token. some (claims_of 0 "1" token, true);
}

abbrev pub one_admin : Rows
one_admin =
    (
      record {
        id = "1";
        username = "ann";
        email = "ann@example.org";
        role = "ADMIN";
        created_at = 5;
      },
      "secret",
    )
    ∷ []

abbrev pub ann : UserContext
ann = record { user_id = "1"; username = "ann"; role = "ADMIN" }

require_user_role_iff_example :
    (require_user_role users names 60 "ADMIN" one_admin "Bearer ann" ≡ passed ann)
    ↔ Authorised users names 60 (λ role. str_eq role "ADMIN") one_admin "Bearer ann" ann
require_user_role_iff_example =
    require_user_role_iff users names 60 "ADMIN" one_admin "Bearer ann" ann

abbrev pub ann_logs_in : Request UserLoginCredentials
ann_logs_in = record {
  is_post = true;
  body = some (record { username = "ann"; password = "secret" });
}

ann_has_token : login_user users names 9 ann_logs_in one_admin ≡ logged_in "ann"
unfolding login_user login_answer issue_token authenticate_user get_user_info generate_jwt is_blank
    is_space
ann_has_token = refl

login_user-IsLogin_example :
    (cred : UserLoginCredentials) × (hash : String) × (row : UserRow) × IsLogin users names 9
      one_admin ann_logs_in "ann" cred hash row
login_user-IsLogin_example =
    login_user-IsLogin users names 9 one_admin ann_logs_in "ann" ann_has_token

abbrev pub ben : NewUserRequest
ben = record { username = "ben"; password = "pw"; email = "ben@example.org" }

abbrev pub ben_registers : Request NewUserRequest
ben_registers = record { is_post = true; body = some ben }

abbrev pub ben_row : UserRow
ben_row = record {
  id = "7";
  username = "ben";
  email = "ben@example.org";
  role = "USER";
  created_at = 1000;
}

abbrev ben_user : User
ben_user = record (requested users names ben) {
  id = some "7";
  password_hash = some "pw";
  created_at = some 1000;
}

abbrev pub ben_answer : UserRegistrationResponse
ben_answer = record { id = "7"; username = "ben"; email = "ben@example.org"; role = "USER" }

ben_created :
    create_user users one_admin (requested users names ben)
    ≡ ((ben_row, "pw") ∷ one_admin, ben_user, none)
unfolding create_user validate_new_user store_user convert_fields convert_string_to_user_role
    matches_email is_blank is_space contains has_prefix new_user_from_request
ben_created = refl

ben_registered :
    register_user users names 9 ben_registers one_admin
    ≡ ((ben_row, "pw") ∷ one_admin, created ben_answer "ben")
unfolding register_user register creation_answer welcome registration_response generate_jwt
    create_user validate_new_user store_user convert_fields convert_string_to_user_role
    matches_email is_blank is_space contains has_prefix new_user_from_request
ben_registered = refl

create_user-IsInserted_example :
    IsNew users one_admin (requested users names ben)
    × ((password hash : String) × (row : UserRow) × IsInserted users one_admin
          (requested users names ben)
          ((ben_row, "pw") ∷ one_admin)
          ben_user
          password
          hash
          row)
create_user-IsInserted_example =
    create_user-IsInserted users one_admin (requested users names ben) ((ben_row, "pw") ∷ one_admin)
      ben_user ben_created

register_user-IsRegistered_example :
    (req : NewUserRequest) × (user : User) × IsRegistered users names 9 one_admin ben_registers
      ((ben_row, "pw") ∷ one_admin)
      ben_answer
      "ben"
      req
      user
register_user-IsRegistered_example =
    register_user-IsRegistered users names 9 one_admin ((ben_row, "pw") ∷ one_admin) ben_registers
      ben_answer "ben" ben_registered
