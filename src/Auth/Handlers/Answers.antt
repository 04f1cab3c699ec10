-- ===== src/Auth/Handlers/Answers.antt =====
-- cmd/auth_handler.go: what the handlers answer.
use pomodoro_backend.Base.{
  String, ◌≡◌, ◌≢◌, refl, ap, inl, inr, true, Option, Option-cases, Sum-cases, none, some, arith,
}
use pomodoro_backend.Clock.Time.{Time}
use pomodoro_backend.Auth.User.{
  User, NewUserRequest, UserLoginCredentials, Jwt, claims_of, new_user_from_request, generate_jwt,
}
use pomodoro_backend.Auth.Repo.Creation.{create_user-IsInserted}
use pomodoro_backend.Auth.Repo.{Database, UserRow, create_user, authenticate_user, get_user_info}
use pomodoro_backend.Auth.Handlers.{
  Request, failed, logged_in, created, panicked, UserRegistrationResponse, login_user, login_answer,
  issue_token, creation_failure, registration_response, register, register_user, creation_answer,
  welcome,
}

module _ (d : Database) (jwt : Jwt) where
  -- A login by a password that fits the hash of the database, with a token for the row of the user.
  pub record IsLogin (now : Time) (db : d.Store) (r : Request UserLoginCredentials) (token : String)
      (cred : UserLoginCredentials) (hash : String) (row : UserRow) : Type 0 where
    pub post : r.is_post ≡ true
    pub body : r.body ≡ some cred
    pub known : d.get_password_hash db cred.username ≡ inl hash
    pub fits : d.fits_hash hash cred.password ≡ true
    pub found : d.get_user_by_username db cred.username ≡ inl row
    pub signed : jwt.sign (claims_of now row.id row.username) ≡ some token

  -- `LoginUser` answers with a token only to a password that fits the hash that the database has
  -- for the name, and the token is signed for the id and the name of that user.
  pub login_user-IsLogin :
      (now : Time) (db : d.Store) (r : Request UserLoginCredentials) (token : String)
      → login_user d jwt now r db ≡ logged_in token
      → (cred : UserLoginCredentials) × (hash : String) × (row : UserRow) × IsLogin now db r token
          cred hash row
  unfolding login_user login_answer issue_token authenticate_user get_user_info generate_jwt
  login_user-IsLogin now db r token h = elim (Option-cases r.body) [
    | inl e ↦ ground arith
    | inr (cred, e) ↦ elim (Sum-cases (d.get_password_hash db cred.username)) [
      | inr (x, f) ↦ ground arith
      | inl (hash, f) ↦ elim (Sum-cases (d.get_user_by_username db cred.username)) [
        | inr (x, g) ↦ ground arith
        | inl (row, g) ↦ (cred, hash, row, ground arith)
      ]
    ]
  ]

  -- `LoginUser` never answers with the status 401, whatever the name and the password are.
  login_user_never_unauthorized :
      (now : Time) (db : d.Store) (r : Request UserLoginCredentials) (error message : String)
      → login_user d jwt now r db ≢ failed 401 error message
  unfolding login_user login_answer issue_token authenticate_user
  login_user_never_unauthorized now db r error message h = ground arith

  -- The user that `RegisterUser` makes of a request.
  abbrev pub requested : NewUserRequest → User
  requested req = record (new_user_from_request req) { email = some req.email }

  pub welcome_lem :
      (now : Time) (user : User) (resp : UserRegistrationResponse) (token : String)
      → welcome d jwt now user ≡ created resp token
      → (user.id ≡ some resp.id)
        × (user.username ≡ some resp.username)
        × (user.email ≡ some resp.email)
        × (user.role ≡ some resp.role)
        × (jwt.sign (claims_of now resp.id resp.username) ≡ some token)
  unfolding welcome registration_response generate_jwt
  welcome_lem now user resp token h =
      (ground arith, ground arith, ground arith, ground arith, ground arith)

  welcome_safe :
      (now : Time) (user : User) {id name email role : String}
      → user.id ≡ some id
      → user.username ≡ some name
      → user.email ≡ some email
      → user.role ≡ some role
      → welcome d jwt now user ≢ panicked
  unfolding welcome registration_response
  welcome_safe now user i n e r h = ground arith

  creation_failure_safe : (title text : String) → creation_failure title text ≢ panicked
  unfolding creation_failure
  creation_failure_safe title text h = ground arith

  pub creation_answer_lem :
      (now : Time) (title : String) (res : d.Store × User × Option String) (db' : d.Store)
      (resp : UserRegistrationResponse) (token : String)
      → creation_answer d jwt now title res ≡ (db', created resp token)
      → (user' : User) × (res ≡ (db', user', none)) × (welcome d jwt now user' ≡ created resp token)
  unfolding creation_answer creation_failure
  creation_answer_lem now title (x, u, none) db' resp token h = (u, ground arith, ground arith)
  creation_answer_lem now title (x, u, some e) db' resp token h = ground arith

  -- A registration that created the user of a request, with a token for its new id.
  pub record IsRegistered (now : Time) (db : d.Store) (r : Request NewUserRequest) (db' : d.Store)
      (resp : UserRegistrationResponse) (token : String) (req : NewUserRequest) (user : User)
      : Type 0 where
    pub post : r.is_post ≡ true
    pub body : r.body ≡ some req
    pub stored : create_user d db (requested req) ≡ (db', user, none)
    pub id : user.id ≡ some resp.id
    pub name : resp.username ≡ req.username
    pub email : resp.email ≡ req.email
    pub role : resp.role ≡ "USER"
    pub signed : jwt.sign (claims_of now resp.id resp.username) ≡ some token

  register_user_reached :
      (now : Time) (db db' : d.Store) (r : Request NewUserRequest) (req : NewUserRequest)
      (resp : UserRegistrationResponse) (token : String)
      → r.body ≡ some req
      → register_user d jwt now r db ≡ (db', created resp token)
      → (r.is_post ≡ true)
        × (creation_answer d jwt now "Failed to create user" (create_user d db (requested req))
            ≡ (db', created resp token))
  unfolding register_user register
  register_user_reached now db db' r req resp token e h = (ground arith, ground arith)

  -- `RegisterUser` answers with a created user only if `CreateUser` returned no error for the user
  -- of the request: the answer has its name, its email and the role USER, and the token is signed
  -- for the id of the new row.
  pub register_user-IsRegistered :
      (now : Time) (db db' : d.Store) (r : Request NewUserRequest) (resp : UserRegistrationResponse)
      (token : String)
      → register_user d jwt now r db ≡ (db', created resp token)
      → (req : NewUserRequest) × (user : User) × IsRegistered now db r db' resp token req user
  unfolding register_user new_user_from_request
  register_user-IsRegistered now db db' r resp token h = elim (Option-cases r.body) [
    | inl e ↦ ground arith
    | inr (req, e) ↦
        let (post, answer) = register_user_reached now db db' r req resp token e h in
        let res = create_user d db (requested req) in
        let (user, run, answered) =
          creation_answer_lem now "Failed to create user" res db' resp token answer in
        let (id, name, email, role, signed) = welcome_lem now user resp token answered in
        let (fresh, (password, hash, row, done)) =
          create_user-IsInserted d db (requested req) db' user run in
        (
          req,
          user,
          record {
            post = post;
            body = e;
            stored = run;
            id = id;
            name = ground (arith, done.updated);
            email = ground (arith, done.updated);
            role = ground (arith, done.updated);
            signed = signed;
          },
        )
  ]

  creation_answer_safe :
      (now : Time) (title : String) (res : d.Store × User × Option String)
      → ((db' : d.Store) (user' : User)
          → res ≡ (db', user', none)
          → welcome d jwt now user' ≢ panicked)
      → (creation_answer d jwt now title res).1 ≢ panicked
  unfolding creation_answer
  creation_answer_safe now title (db', user', none) safe h = safe db' user' refl h
  creation_answer_safe now title (db', user', some e) safe h = creation_failure_safe title e h

  welcome_inserted_safe :
      (now : Time) (db db' : d.Store) (req : NewUserRequest) (user' : User)
      → create_user d db (requested req) ≡ (db', user', none)
      → welcome d jwt now user' ≢ panicked
  unfolding new_user_from_request
  welcome_inserted_safe now db db' req user' run =
      let (fresh, (password, hash, row, done)) =
        create_user-IsInserted d db (requested req) db' user' run in
      welcome_safe now user' (ap (λ u. u.id) done.updated) (ap (λ u. u.username) done.updated)
        (ap (λ u. u.email) done.updated) (ap (λ u. u.role) done.updated)

  -- `RegisterUser` never follows a nil pointer.
  register_user_safe :
      (now : Time) (db : d.Store) (r : Request NewUserRequest)
      → (register_user d jwt now r db).1 ≢ panicked
  unfolding register_user register
  register_user_safe now db r h = elim (Option-cases r.body) [
    | inl e ↦ ground arith
    | inr (req, e) ↦
        let stored =
          creation_answer_safe now "Failed to create user" (create_user d db (requested req))
            (λ db' user' run. welcome_inserted_safe now db db' req user' run) in
        ground (arith, stored)
  ]
