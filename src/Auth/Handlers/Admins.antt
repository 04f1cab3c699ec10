-- ===== src/Auth/Handlers/Admins.antt =====
-- cmd/auth_handler.go: the registration of admins.
use pomodoro_backend.Base.{String, ◌≡◌, refl, inl, inr, Option-cases, some, arith}
use pomodoro_backend.Clock.Time.{Time}
use pomodoro_backend.Auth.User.{User, NewUserRequest, Jwt, claims_of, new_admin_user_from_request}
use pomodoro_backend.Auth.Repo.{
  Database, UserRow, CreateUserParams, create_user, convert_string_to_user_role,
}
use pomodoro_backend.Auth.Repo.Creation.{create_user-IsInserted}
use pomodoro_backend.Auth.Handlers.{
  Request, created, UserRegistrationResponse, register, register_admin_user, creation_answer,
}
use pomodoro_backend.Auth.Handlers.Answers.{welcome_lem, creation_answer_lem}

module _ (d : Database) (jwt : Jwt) where
  -- The user that `RegisterAdminUser` makes of a request.
  abbrev requested_admin : NewUserRequest → User
  requested_admin req = record (new_admin_user_from_request req) { email = some req.email }

  register_admin_user_reached :
      (now : Time) (db db' : d.Store) (r : Request NewUserRequest) (req : NewUserRequest)
      (resp : UserRegistrationResponse) (token : String)
      → r.body ≡ some req
      → register_admin_user d jwt now r db ≡ (db', created resp token)
      → creation_answer d jwt now "Failed to create admin user"
          (create_user d db (requested_admin req))
        ≡ (db', created resp token)
  unfolding register_admin_user register
  register_admin_user_reached now db db' r req resp token e h = ground arith

  -- A registration of an admin that inserted a row, with a token for it.
  pub record IsAdminRow (now : Time) (db db' : d.Store) (token : String) (p : CreateUserParams)
      (row : UserRow) : Type 0 where
    pub put : d.insert_user db p ≡ (db', inl row)
    pub role : p.role ≡ "ADMIN"
    pub signed : jwt.sign (claims_of now row.id p.username) ≡ some token

  -- `RegisterAdminUser` answers with a created user only if a row with the role ADMIN was inserted,
  -- and the token is signed for its id and the name that was inserted.
  pub register_admin_user-IsAdminRow :
      (now : Time) (db db' : d.Store) (r : Request NewUserRequest) (resp : UserRegistrationResponse)
      (token : String)
      → register_admin_user d jwt now r db ≡ (db', created resp token)
      → (p : CreateUserParams) × (row : UserRow) × IsAdminRow now db db' token p row
  unfolding register_admin_user new_admin_user_from_request convert_string_to_user_role
  register_admin_user-IsAdminRow now db db' r resp token h = elim (Option-cases r.body) [
    | inl e ↦ ground arith
    | inr (req, e) ↦
        let answer = register_admin_user_reached now db db' r req resp token e h in
        let res = create_user d db (requested_admin req) in
        let (user, run, answered) =
          creation_answer_lem d jwt now "Failed to create admin user" res db' resp token answer in
        let (id, name, email, role, signed) = welcome_lem d jwt now user resp token answered in
        let (fresh, (password, hash, row, done)) =
          create_user-IsInserted d db (requested_admin req) db' user run in
        (_, row, record { put = done.row_of; role = refl; signed = ground (arith, done.updated) })
  ]
