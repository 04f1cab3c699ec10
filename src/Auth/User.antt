-- ===== src/Auth/User.antt =====
-- internal/auth/model.go: the users and their tokens.
use pomodoro_backend.Base.{◌+◌, ◌*◌, String, Bool, Option, none, some, if◌then◌else◌}
use pomodoro_backend.Clock.Time.{Time, hour}

-- A nil pointer is `none`.
pub record User : Type 0 where
  pub id : Option String
  pub username : Option String
  pub password : Option String
  pub password_hash : Option String
  pub email : Option String
  pub role : Option String
  pub created_at : Option Time

pub record NewUserRequest : Type 0 where
  pub username : String
  pub password : String
  pub email : String

pub record UserLoginCredentials : Type 0 where
  pub username : String
  pub password : String

pub record JwtClaims : Type 0 where
  pub username : String
  pub user_id : String
  pub expires_at : Time
  pub issued_at : Time
  pub not_before : Time
  pub issuer : String
  pub subject : String

-- What the program calls of the package jwt with its secret key: `SignedString` of a token with
-- these claims and HS256, and `ParseWithClaims` with a key function that accepts only HMAC, with
-- the flag `Valid` of the token, at a time. `none` is an error.
pub record Jwt : Type 0 where
  pub sign : JwtClaims → Option String
  pub parse : Time → String → Option (JwtClaims × Bool)

unfoldable pub new_user_from_request : NewUserRequest → User
new_user_from_request req = record {
  id = none;
  username = some req.username;
  password = some req.password;
  password_hash = none;
  email = none;
  role = some "USER";
  created_at = none;
}

unfoldable pub new_admin_user_from_request : NewUserRequest → User
new_admin_user_from_request req = record {
  id = none;
  username = some req.username;
  password = some req.password;
  password_hash = none;
  email = none;
  role = some "ADMIN";
  created_at = none;
}

-- The claims that `GenerateJWT` signs.
abbrev pub claims_of : Time → (id username : String) → JwtClaims
claims_of now id username = record {
  username = username;
  user_id = id;
  expires_at = now + 24 * hour;
  issued_at = now;
  not_before = now;
  issuer = "pomodoro-service";
  subject = id;
}

-- `none` is an error.
unfoldable pub generate_jwt : Jwt → Time → User → Option String
generate_jwt jwt now user = elim user.id [
  | none ↦ none
  | some id ↦ elim user.username [ none ↦ none | some name ↦ jwt.sign (claims_of now id name) ]
]

unfoldable pub validate_jwt : Jwt → Time → String → Option JwtClaims
validate_jwt jwt now token = elim (jwt.parse now token) [
  | none ↦ none
  | some (claims, valid) ↦ if valid then some claims else none
]
