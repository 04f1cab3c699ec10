-- ===== src/Auth/Handlers/Profiles.antt =====
-- cmd/auth_handler.go: the profile behind its guard.
use pomodoro_backend.Base.{String, ◌≡◌, inl, arith}
use pomodoro_backend.Clock.Time.{Time}
use pomodoro_backend.Auth.User.{Jwt}
use pomodoro_backend.Auth.Repo.{Database, UserRow, get_user_info}
use pomodoro_backend.Auth.Guard.{
  UserContext, passed, context_of, get_user_from_context, require_any_user_role,
}
use pomodoro_backend.Auth.Guard.Access.{require_role_iff-Authorised}
use pomodoro_backend.Auth.Handlers.{Profile, shown, profile_response, get_profile}

abbrev pub profile_of : UserRow → Profile
profile_of row = record {
  id = row.id;
  username = row.username;
  email = row.email;
  role = row.role;
  created_at = row.created_at;
}

module _ (d : Database) (jwt : Jwt) where
  -- Behind the guard for any user, `GetProfile` shows the row that the database has for the name of
  -- the token, whose role is the one of the context, and follows no nil pointer.
  get_profile-require_any_user_role :
      (now : Time) (db : d.Store) (header : String) (c : UserContext)
      → require_any_user_role d jwt now db header ≡ passed c
      → (row : UserRow) × (d.get_user_by_username db c.username ≡ inl row)
        × (row.role ≡ c.role)
        × (get_profile d jwt (context_of c) db ≡ shown (profile_of row))
  unfolding require_any_user_role get_profile get_user_from_context profile_response get_user_info
  get_profile-require_any_user_role now db header c h =
      let (token, claims, row, at, parsed, found, role, ok, id, name) =
        (require_role_iff-Authorised d jwt now _ db header c).0 h in
      let same : d.get_user_by_username db c.username ≡ inl row = rw name found in
      (row, same, role, ground (arith, same))
