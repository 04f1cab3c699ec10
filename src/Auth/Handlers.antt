-- ===== src/Auth/Handlers.antt =====
-- cmd/auth_handler.go: the handlers of the users.
pub mod Answers
pub mod Profiles
pub mod Admins
use pomodoro_backend.Base.{
  ℕ, String, Bool, true, false, not, ◌||◌, Option, none, some, if◌then◌else◌, contains, is_blank,
}
use pomodoro_backend.Clock.Time.{Time}
use pomodoro_backend.Auth.User.{
  User, NewUserRequest, UserLoginCredentials, Jwt, new_user_from_request,
  new_admin_user_from_request, generate_jwt,
}
use pomodoro_backend.Auth.Guard.{UserContext, RequestContext, get_user_from_context}
use pomodoro_backend.Auth.Repo.{Database, create_user, authenticate_user, get_user_info}

pub record UserRegistrationResponse : Type 0 where
  pub id : String
  pub username : String
  pub email : String
  pub role : String

pub record Profile : Type 0 where
  pub id : String
  pub username : String
  pub email : String
  pub role : String
  pub created_at : Time

-- `failed` is an answer of `writeErrorResponse` with its status. `panicked` is the use of a nil
-- pointer.
pub data Response : Type 0 where
  failed : (status : ℕ) (error message : String) → Response
  logged_in : (token : String) → Response
  created : UserRegistrationResponse → (token : String) → Response
  shown : Profile → Response
  panicked : Response

-- A request: whether its method is POST, and its body as `json.Decode` reads it, `none` for an
-- error.
pub record Request (Body : Type 0) : Type 0 where
  pub is_post : Bool
  pub body : Option Body

-- The pointers that the answer of `GetProfile` follows.
unfoldable pub profile_response : (id username email role : Option String) → Option Time → Response
profile_response (some id) (some name) (some email) (some role) (some at) =
    shown (record { id = id; username = name; email = email; role = role; created_at = at })
profile_response _ _ _ _ _ = panicked

-- The answer to an error of `CreateUser`, by the text of the error.
unfoldable pub creation_failure : (title : String) → String → Response
creation_failure title text =
    if contains text "username already exists"
      || contains text "email already exists"
      || contains text "already exists"
    then failed 409 "User already exists" text
    else if contains text "invalid email format"
    then failed 400 "Invalid email format" text
    else if contains text "required"
    then failed 400 "Validation error" text
    else failed 500 title "Internal server error"

-- The pointers that the answer to a registration follows.
unfoldable pub registration_response :
    (token : String) → (id username email role : Option String) → Response
registration_response token (some id) (some name) (some email) (some role) =
    created (record { id = id; username = name; email = email; role = role }) token
registration_response token _ _ _ _ = panicked

module _ (d : Database) (jwt : Jwt) where
  -- The answer to a user that was created, with a token.
  unfoldable pub welcome : Time → User → Response
  unfolding registration_response
  welcome now user = elim (generate_jwt jwt now user) [
    | none ↦ failed 500 "Failed to generate token" "Internal server error"
    | some token ↦ registration_response token user.id user.username user.email user.role
  ]

  unfoldable pub creation_answer :
      Time → (title : String) → d.Store × User × Option String → d.Store × Response
  unfolding welcome creation_failure
  creation_answer now title (db, user, none) = (db, welcome now user)
  creation_answer now title (db, user, some e) = (db, creation_failure title e)

  -- The body of both registrations behind the decoding, for the user that is made of the request.
  unfoldable pub register :
      Time → (title : String) → NewUserRequest → User → d.Store → d.Store × Response
  unfolding creation_answer
  register now title req user db =
      if is_blank req.username
      then (db, failed 400 "Validation error" "Username is required")
      else if is_blank req.password
      then (db, failed 400 "Validation error" "Password is required")
      else if is_blank req.email
      then (db, failed 400 "Validation error" "Email is required")
      else creation_answer now title (create_user d db (record user { email = some req.email }))

  abbrev pub not_post : Response
  not_post = failed 405 "Method not allowed" "Use POST method"

  abbrev pub bad_json : Response
  bad_json = failed 400 "Invalid JSON" "Failed to parse request body"

  unfoldable pub register_user : Time → Request NewUserRequest → d.Store → d.Store × Response
  unfolding register
  register_user now r db = if not r.is_post then (db, not_post) else elim r.body [
    | none ↦ (db, bad_json)
    | some req ↦ register now "Failed to create user" req (new_user_from_request req) db
  ]

  unfoldable pub register_admin_user : Time → Request NewUserRequest → d.Store → d.Store × Response
  unfolding register
  register_admin_user now r db = if not r.is_post then (db, not_post) else elim r.body [
    | none ↦ (db, bad_json)
    | some req ↦ register now "Failed to create admin user" req (new_admin_user_from_request req) db
  ]

  -- `LoginUser` behind a successful authentication.
  unfoldable pub issue_token : Time → Option User → Response
  issue_token now none = failed 500 "Failed to get user info" "Internal server error"
  issue_token now (some user) = elim (generate_jwt jwt now user) [
    | none ↦ failed 500 "Failed to generate token" "Internal server error"
    | some token ↦ logged_in token
  ]

  unfoldable pub login_answer :
      Time → UserLoginCredentials → d.Store → Bool × Option String → Response
  unfolding issue_token
  login_answer now cred db (_, some e) = failed 500 "Authentication failed" "Internal server error"
  login_answer now cred db (false, none) =
      failed 401 "Invalid credentials" "Username or password is incorrect"
  login_answer now cred db (true, none) = issue_token now (get_user_info d db cred.username)

  unfoldable pub login_user : Time → Request UserLoginCredentials → d.Store → Response
  unfolding login_answer
  login_user now r db = if not r.is_post then not_post else elim r.body [
    | none ↦ bad_json
    | some cred ↦
        if is_blank cred.username
        then failed 400 "Validation error" "Username is required"
        else if is_blank cred.password
        then failed 400 "Validation error" "Password is required"
        else login_answer now cred db (authenticate_user d db cred)
  ]

  unfoldable pub get_profile : RequestContext → d.Store → Response
  unfolding profile_response
  get_profile ctx db = elim (get_user_from_context ctx) [
    | none ↦ failed 401 "Unauthorized" "User information not found in context"
    | some c ↦ elim (get_user_info d db c.username) [
      | none ↦ failed 500 "Failed to get user info" "Internal server error"
      | some user ↦ profile_response user.id user.username user.email user.role user.created_at
    ]
  ]
