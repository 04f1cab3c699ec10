-- ===== src/Auth/Guard.antt =====
-- internal/auth/model.go: the guards of the routes.
pub mod Access
use text.Mathlib.Text.{◌==◌ as str_eq}
use pomodoro_backend.Base.{
  ℕ, String, Bool, true, false, not, ◌&&◌, ◌||◌, Option, none, some, List, [], ◌∷◌, if◌then◌else◌,
  split_on,
}
use pomodoro_backend.Clock.Time.{Time}
use pomodoro_backend.Auth.User.{User, Jwt, JwtClaims, validate_jwt}
use pomodoro_backend.Auth.Repo.{Database, get_user_info}

-- What a guard adds to the context of a request.
pub record UserContext : Type 0 where
  pub user_id : String
  pub username : String
  pub role : String

-- The values of a context under the three keys, which only the guards write, as strings.
pub record RequestContext : Type 0 where
  pub user_id : Option String
  pub username : Option String
  pub role : Option String

-- What `context.WithValue` makes of a context in a guard.
abbrev pub context_of : UserContext → RequestContext
context_of c = record { user_id = some c.user_id; username = some c.username; role = some c.role }

abbrev pub context_values : (user_id username role : Option String) → Option UserContext
context_values (some id) (some name) (some role) =
    some (record { user_id = id; username = name; role = role })
context_values _ _ _ = none

-- `none` is the result with ok = false.
unfoldable pub get_user_from_context : RequestContext → Option UserContext
get_user_from_context ctx = context_values ctx.user_id ctx.username ctx.role

-- An error answer with its status, or the next handler with the context.
pub data Verdict : Type 0 where
  refused : ℕ → Verdict
  passed : UserContext → Verdict

-- `len(tokenParts) == 2 && tokenParts[0] == "Bearer"`, and the token.
abbrev pub bearer : List String → Option String
bearer (b ∷ t ∷ []) = if str_eq b "Bearer" then some t else none
bearer _ = none

-- The token of a header that is not empty, split at its spaces.
unfoldable pub bearer_token : String → Option String
bearer_token header = if str_eq header "" then none else bearer (split_on 32 header)

-- `user.Role == nil || …`: the role, if it is accepted.
abbrev pub accepted : (String → Bool) → Option String → Option String
accepted accepts none = none
accepted accepts (some role) = if accepts role then some role else none

module _ (d : Database) (jwt : Jwt) (now : Time) where
  -- The two guards differ in the roles that they accept.
  unfoldable pub check_role : (String → Bool) → JwtClaims → Option User → Verdict
  check_role accepts claims none = refused 500
  check_role accepts claims (some user) = elim (accepted accepts user.role) [
    | none ↦ refused 403
    | some role ↦
        passed (record { user_id = claims.user_id; username = claims.username; role = role })
  ]

  unfoldable pub require_role : (String → Bool) → d.Store → String → Verdict
  unfolding check_role
  require_role accepts db header = elim (bearer_token header) [
    | none ↦ refused 401
    | some token ↦ elim (validate_jwt jwt now token) [
      | none ↦ refused 401
      | some claims ↦ check_role accepts claims (get_user_info d db claims.username)
    ]
  ]

  -- `RequireUserRole`, of the value of the header `Authorization`.
  unfoldable pub require_user_role : (required : String) → d.Store → String → Verdict
  unfolding require_role
  require_user_role required = require_role (λ role. str_eq role required)

  unfoldable pub require_admin_role : d.Store → String → Verdict
  unfolding require_user_role
  require_admin_role = require_user_role "ADMIN"

  unfoldable pub require_any_user_role : d.Store → String → Verdict
  unfolding require_role
  require_any_user_role = require_role (λ role. str_eq role "USER" || str_eq role "ADMIN")
