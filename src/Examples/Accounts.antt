-- ===== src/Examples/Accounts.antt =====
-- From a registration or a login to the guards, with members in memory and tokens that expire.
use pomodoro_backend.Base.{
  ◌+◌, ◌*◌, String, ◌≡◌, refl, some, [], ◌∷◌, is_blank, is_space, contains, has_prefix, arith,
}
use pomodoro_backend.Clock.Time.{hour}
use pomodoro_backend.Auth.User.{NewUserRequest, claims_of, generate_jwt, new_user_from_request}
use pomodoro_backend.Auth.Email.{matches_email}
use pomodoro_backend.Auth.Repo.{
  create_user, validate_new_user, store_user, convert_fields, convert_string_to_user_role,
  authenticate_user, get_user_info,
}
use pomodoro_backend.Auth.Guard.{UserContext, passed, refused, require_any_user_role}
use pomodoro_backend.Auth.Handlers.{
  logged_in, created, login_user, login_answer, issue_token, register_user, register,
  creation_answer, welcome, registration_response,
}
use pomodoro_backend.Auth.Passage.{
  bearer_header, login_of, require_any_user_role-login_user,
  require_any_user_role-login_user_expired, login_user-register_user,
}
use pomodoro_backend.Examples.Tokens.{tokens, tokens-IsJwt, put_claims}
use pomodoro_backend.Examples.Members.{members, members-IsDatabase}
use pomodoro_backend.Examples.Users.{one_admin, ann_logs_in, ben_registers, ben_row, ben_answer}

ann_logged_in :
    login_user members tokens 9 ann_logs_in one_admin
    ≡ logged_in (put_claims (claims_of 9 "1" "ann"))
unfolding login_user login_answer issue_token authenticate_user get_user_info generate_jwt is_blank
    is_space
ann_logged_in = refl

require_any_user_role-login_user_example :
    (c : UserContext) × (require_any_user_role members tokens 60 one_admin
        (bearer_header (put_claims (claims_of 9 "1" "ann")))
      ≡ passed c)
    × (c.username ≡ "ann")
require_any_user_role-login_user_example =
    require_any_user_role-login_user members members-IsDatabase tokens tokens-IsJwt 9 60 one_admin
      ann_logs_in (record { username = "ann"; password = "secret" })
      (put_claims (claims_of 9 "1" "ann")) refl ann_logged_in (omega arith) (omega arith)

require_any_user_role-login_user_expired_example :
    require_any_user_role members tokens
      (9 + 24 * hour)
      []
      (bearer_header (put_claims (claims_of 9 "1" "ann")))
    ≡ refused 401
require_any_user_role-login_user_expired_example =
    require_any_user_role-login_user_expired members members-IsDatabase tokens tokens-IsJwt 9
      (9 + 24 * hour) one_admin [] ann_logs_in (put_claims (claims_of 9 "1" "ann")) ann_logged_in
      (omega arith)

ben_joined :
    register_user members tokens 9 ben_registers one_admin
    ≡ ((ben_row, "pw") ∷ one_admin, created ben_answer (put_claims (claims_of 9 "7" "ben")))
unfolding register_user register creation_answer welcome registration_response generate_jwt
    create_user validate_new_user store_user convert_fields convert_string_to_user_role
    matches_email is_blank is_space contains has_prefix new_user_from_request
ben_joined = refl

login_user-register_user_example :
    (req : NewUserRequest) × (fresh : String) × (ben_registers.body ≡ some req)
    × (login_user members tokens 70 (login_of req) ((ben_row, "pw") ∷ one_admin) ≡ logged_in fresh)
login_user-register_user_example =
    login_user-register_user members members-IsDatabase tokens tokens-IsJwt 9 70 one_admin
      ((ben_row, "pw") ∷ one_admin) ben_registers ben_answer (put_claims (claims_of 9 "7" "ben"))
      ben_joined
