-- ===== src/Auth/Passage.antt =====
-- internal/auth and cmd/auth_handler.go together: from a registration or a login to a guard.
use text.Mathlib.Text.{◌==◌ as str_eq}
use text.Mathlib.TextEquality.{eq_iff}
use pomodoro_backend.Base.{
  ◌+◌, ◌-◌, ◌*◌, ◌%◌, ◌≤◌, ◌<◌, String, ◌≡◌, refl, ap, sym, ◌∙◌, inl, Bool, true, false, ◌||◌, some,
  [], ◌∷◌, split_on, append, is_blank, arith,
}
use pomodoro_backend.Clock.Time.{Time, second, hour}
use pomodoro_backend.Auth.User.{
  NewUserRequest, UserLoginCredentials, Jwt, claims_of, new_user_from_request, generate_jwt,
  validate_jwt,
}
use pomodoro_backend.Auth.Repo.{Database, UserRow, get_user_info, authenticate_user}
use pomodoro_backend.Auth.Repo.Creation.{create_user-IsInserted}
use pomodoro_backend.Auth.Laws.{IsDatabase, IsJwt}
use pomodoro_backend.Auth.Guard.{UserContext, refused, passed, require_role, require_any_user_role}
use pomodoro_backend.Auth.Guard.Access.{Authorised, require_role_iff-Authorised, bearer_token_iff}
use pomodoro_backend.Auth.Handlers.{
  Request, logged_in, created, UserRegistrationResponse, login_user, login_answer, issue_token,
  register_user, register,
}
use pomodoro_backend.Auth.Handlers.Answers.{
  requested, register_user-IsRegistered, login_user-IsLogin,
}

-- The header that a client sends with its token.
abbrev pub bearer_header : String → String
bearer_header token = append "Bearer " token

split-bearer_header :
    (token : String)
    → split_on 32 token ≡ token ∷ []
    → split_on 32 (bearer_header token) ≡ "Bearer" ∷ token ∷ []
unfolding split_on append
split-bearer_header token h = rw h

-- The time from which a token that was signed at a time is refused: less than 24 hours later, by
-- the fraction of a second.
abbrev pub expiry : Time → Time
expiry t = t + 24 * hour - (t + 24 * hour) % second

-- The login with the name and the password of a registration.
abbrev pub login_of : NewUserRequest → Request UserLoginCredentials
login_of req = record {
  is_post = true;
  body = some (record { username = req.username; password = req.password });
}

module _ (d : Database) (stored : IsDatabase d) (jwt : Jwt) (signed : IsJwt jwt) where
  -- A token for a user of the database passes a guard that accepts the role of the user.
  pub token-Authorised :
      (accepts : String → Bool) (t now : Time) (db : d.Store) (id : String) (row : UserRow)
      (token : String)
      → jwt.sign (claims_of t id row.username) ≡ some token
      → t ≤ now
      → now < expiry t
      → d.get_user_by_username db row.username ≡ inl row
      → accepts row.role ≡ true
      → Authorised d jwt now accepts db
          (bearer_header token)
          (record { user_id = id; username = row.username; role = row.role })
  token-Authorised accepts t now db id row token sign after before found ok =
      let (read, parsed, name, user) =
        signed.parse-sign now (claims_of t id row.username) token sign after before in
      (
        token,
        read,
        row,
        split-bearer_header token (signed.no_spaces (claims_of t id row.username) token sign),
        parsed,
        rw name found,
        refl,
        ok,
        sym user,
        sym name,
      )

  any_role :
      (db : d.Store) (name : String) (row : UserRow)
      → d.get_user_by_username db name ≡ inl row
      → (str_eq row.role "USER" || str_eq row.role "ADMIN") ≡ true
  any_role db name row found =
      ground (
        arith,
        stored.found_role db name row found,
        eq_iff row.role "USER",
        eq_iff row.role "ADMIN",
      )

  -- With the documented behaviour of the database and of jwt, a login at a time t whose token is
  -- used from t until its expiry, less than 24 hours later, passes the guard for any user, with the
  -- name that logged in, while the database is as it was at the login.
  pub require_any_user_role-login_user :
      (t now : Time) (db : d.Store) (r : Request UserLoginCredentials) (cred : UserLoginCredentials)
      (token : String)
      → r.body ≡ some cred
      → login_user d jwt t r db ≡ logged_in token
      → t ≤ now
      → now < expiry t
      → (c : UserContext) × (require_any_user_role d jwt now db (bearer_header token) ≡ passed c)
        × (c.username ≡ cred.username)
  unfolding require_any_user_role
  require_any_user_role-login_user t now db r cred token body h after before =
      let (given, hash, row, login) = login_user-IsLogin d jwt t db r token h in
      let same : given ≡ cred = ground (arith, login.body) in
      let name = stored.found_name db given.username row login.found in
      let found : d.get_user_by_username db row.username ≡ inl row = rw name login.found in
      let c : UserContext = record { user_id = row.id; username = row.username; role = row.role } in
      (
        c,
        (require_role_iff-Authorised d jwt now (λ role. str_eq role "USER" || str_eq role "ADMIN")
              db (bearer_header token) c).1
            (token-Authorised (λ role. str_eq role "USER" || str_eq role "ADMIN") t now db row.id
              row token login.signed after before found (any_role db row.username row found)),
        name ∙ ap (λ x. x.username) same,
      )

  -- With the documented behaviour of jwt, after 24 hours the token of a login is refused with the
  -- status 401 by the guard for any user.
  pub require_any_user_role-login_user_expired :
      (t now : Time) (db db' : d.Store) (r : Request UserLoginCredentials) (token : String)
      → login_user d jwt t r db ≡ logged_in token
      → t + 24 * hour ≤ now
      → require_any_user_role d jwt now db' (bearer_header token) ≡ refused 401
  unfolding require_any_user_role require_role validate_jwt
  require_any_user_role-login_user_expired t now db db' r token h late =
      let (given, hash, row, login) = login_user-IsLogin d jwt t db r token h in
      let claims = claims_of t row.id row.username in
      let at =
        (bearer_token_iff (bearer_header token) token).1
          (split-bearer_header token (signed.no_spaces claims token login.signed)) in
      ground (arith, at, signed.parse-sign_expired now claims token login.signed late)

  register_user_password :
      (t : Time) (db db' : d.Store) (r : Request NewUserRequest) (req : NewUserRequest)
      (resp : UserRegistrationResponse) (token : String)
      → r.body ≡ some req
      → register_user d jwt t r db ≡ (db', created resp token)
      → (is_blank req.username ≡ false) × (is_blank req.password ≡ false)
  unfolding register_user register
  register_user_password t db db' r req resp token e h = (ground arith, ground arith)

  login_user-of :
      (t : Time) (db : d.Store) (req : NewUserRequest) (hash token : String) (row : UserRow)
      → is_blank req.username ≡ false
      → is_blank req.password ≡ false
      → d.get_password_hash db req.username ≡ inl hash
      → d.fits_hash hash req.password ≡ true
      → d.get_user_by_username db req.username ≡ inl row
      → jwt.sign (claims_of t row.id row.username) ≡ some token
      → login_user d jwt t (login_of req) db ≡ logged_in token
  unfolding login_user login_answer issue_token authenticate_user get_user_info generate_jwt
  login_user-of t db req hash token row name password known fits found sign = ground arith

  -- With the documented behaviour of the database and of jwt, whoever registered logs in with the
  -- name and the password of the registration, at any time, and gets a token, where the database is
  -- as the registration left it.
  pub login_user-register_user :
      (t later : Time) (db db' : d.Store) (r : Request NewUserRequest)
      (resp : UserRegistrationResponse) (token : String)
      → register_user d jwt t r db ≡ (db', created resp token)
      → (req : NewUserRequest) × (fresh : String) × (r.body ≡ some req)
        × (login_user d jwt later (login_of req) db' ≡ logged_in fresh)
  unfolding new_user_from_request
  login_user-register_user t later db db' r resp token h =
      let (req, user, done) = register_user-IsRegistered d jwt t db db' r resp token h in
      let (name, password) = register_user_password t db db' r req resp token done.body h in
      let (fresh, (given, hash, row, put)) =
        create_user-IsInserted d db (requested d jwt req) db' user done.stored in
      let (new, sign) = signed.sign_total (claims_of later row.id row.username) in
      let same : req.password ≡ given = ground (arith, put.given) in
      (
        req,
        new,
        done.body,
        login_user-of later db' req hash new row name password
            (stored.hash-insert db db' _ row put.row_of)
            (rw same (stored.fits-hash given hash put.hashed))
            (stored.by_username-insert db db' _ row put.row_of) sign,
      )
