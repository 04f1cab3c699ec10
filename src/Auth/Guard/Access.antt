-- ===== src/Auth/Guard/Access.antt =====
-- internal/auth/model.go: whom the guards let pass.
use text.Mathlib.Text.{◌==◌ as str_eq}
use text.Mathlib.TextEquality.{eq_iff}
use pomodoro_backend.Base.{
  String, ◌≡◌, ◌↔◌, refl, inl, inr, Bool, true, ◌||◌, Option, Option-cases, Sum-cases, Bool-cases,
  ◌≢◌, none, some, List, [], ◌∷◌, split_on, ap, sym, ◌∙◌, arith,
}
use pomodoro_backend.Clock.Time.{Time}
use pomodoro_backend.Auth.User.{User, Jwt, JwtClaims, validate_jwt}
use pomodoro_backend.Auth.Repo.{Database, UserRow, user_of_row, get_user_info}
use pomodoro_backend.Auth.Guard.{
  UserContext, passed, bearer, bearer_token, accepted, check_role, require_role, require_user_role,
  require_admin_role, require_any_user_role,
}

bearer_iff : (ts : List String) (t : String) → (bearer ts ≡ some t) ↔ (ts ≡ "Bearer" ∷ t ∷ [])
bearer_iff [] t = (λ h. cc h, λ h. cc h)
bearer_iff (a ∷ []) t = (λ h. cc h, λ h. cc h)
bearer_iff (a ∷ b ∷ []) t =
    (λ h. ground (arith, eq_iff a "Bearer"), λ h. ground (arith, eq_iff a "Bearer"))
bearer_iff (a ∷ b ∷ c ∷ ts) t = (λ h. cc h, λ h. cc h)

one_token : {a b c : String} → a ∷ [] ≢ b ∷ c ∷ []
one_token h = cc h

pub bearer_token_iff :
    (header token : String)
    → (bearer_token header ≡ some token) ↔ (split_on 32 header ≡ "Bearer" ∷ token ∷ [])
unfolding bearer_token split_on
bearer_token_iff header token = elim (Bool-cases (str_eq header "")) [
  | inl e ↦
      let empty : header ≡ "" = (eq_iff header "").0 e in
      (λ h. ground arith, λ h. absurd (one_token (sym (ap (split_on 32) empty) ∙ h)))
  | inr e ↦
      let (sound, complete) = bearer_iff (split_on 32 header) token in
      (λ h. sound (ground arith), λ h. ground (arith, complete h))
]

module _ (d : Database) (jwt : Jwt) (now : Time) where
  -- The steps of a guard, one by one.
  abbrev Checked : (String → Bool) → d.Store → String → UserContext → Type 0
  Checked accepts db header c =
      (token : String) × (claims : JwtClaims) × (user : User) × (bearer_token header ≡ some token)
      × (validate_jwt jwt now token ≡ some claims)
      × (get_user_info d db claims.username ≡ some user)
      × (user.role ≡ some c.role)
      × (accepts c.role ≡ true)
      × (c.user_id ≡ claims.user_id)
      × (c.username ≡ claims.username)

  accepted_lem :
      (accepts : String → Bool) (role : Option String) (r : String)
      → accepted accepts role ≡ some r
      → (role ≡ some r) × (accepts r ≡ true)
  accepted_lem accepts role r h = ground arith

  check_role_passed :
      (accepts : String → Bool) (claims : JwtClaims) (user : Option User) (c : UserContext)
      → check_role d jwt now accepts claims user ≡ passed c
      → (u : User) × (user ≡ some u)
        × (u.role ≡ some c.role)
        × (accepts c.role ≡ true)
        × (c.user_id ≡ claims.user_id)
        × (c.username ≡ claims.username)
  unfolding check_role
  check_role_passed accepts claims none c h = cc h
  check_role_passed accepts claims (some u) c h =
      (u, refl, ground arith, ground arith, ground arith, ground arith)

  check_role_passes :
      (accepts : String → Bool) (claims : JwtClaims) (u : User) (c : UserContext)
      → u.role ≡ some c.role
      → accepts c.role ≡ true
      → c.user_id ≡ claims.user_id
      → c.username ≡ claims.username
      → check_role d jwt now accepts claims (some u) ≡ passed c
  unfolding check_role
  check_role_passes accepts claims u c role ok id name = ground arith

  require_role_sound :
      (accepts : String → Bool) (db : d.Store) (header : String) (c : UserContext)
      → require_role d jwt now accepts db header ≡ passed c
      → Checked accepts db header c
  unfolding require_role
  require_role_sound accepts db header c h = elim (Option-cases (bearer_token header)) [
    | inl e ↦ ground arith
    | inr (token, e) ↦ elim (Option-cases (validate_jwt jwt now token)) [
      | inl f ↦ ground arith
      | inr (claims, f) ↦
          let user = get_user_info d db claims.username in
          let (u, at, role, ok, id, name) =
            check_role_passed accepts claims user c (ground arith) in
          (token, claims, u, e, f, at, role, ok, id, name)
    ]
  ]

  require_role_iff :
      (accepts : String → Bool) (db : d.Store) (header : String) (c : UserContext)
      → (require_role d jwt now accepts db header ≡ passed c) ↔ Checked accepts db header c
  unfolding require_role
  require_role_iff accepts db header c = (
    require_role_sound accepts db header c,
    λ (token, claims, u, e, f, at, role, ok, id, name).
        rw (e, require_role, f, at) (check_role_passes accepts claims u c role ok id name),
  )

  -- The header is "Bearer" and a token, parted by the one space that it holds, the token is parsed
  -- and valid, the database has its user with an accepted role, and the context is that of the
  -- token and this role.
  abbrev pub Authorised : (String → Bool) → d.Store → String → UserContext → Type 0
  Authorised accepts db header c =
      (token : String) × (claims : JwtClaims) × (row : UserRow) × (split_on 32 header
        ≡ "Bearer" ∷ token ∷ [])
      × (jwt.parse now token ≡ some (claims, true))
      × (d.get_user_by_username db claims.username ≡ inl row)
      × (row.role ≡ c.role)
      × (accepts c.role ≡ true)
      × (c.user_id ≡ claims.user_id)
      × (c.username ≡ claims.username)

  Checked-sound :
      (accepts : String → Bool) (db : d.Store) (header : String) (c : UserContext)
      → Checked accepts db header c
      → Authorised accepts db header c
  unfolding validate_jwt get_user_info
  Checked-sound accepts db header c (token, claims, u, e, f, at, role, ok, id, name) =
      elim (Sum-cases (d.get_user_by_username db claims.username)) [
        | inr (x, g) ↦ ground arith
        | inl (row, g) ↦ (
          token,
          claims,
          row,
          (bearer_token_iff header token).0 e,
          ground arith,
          g,
          ground arith,
          ok,
          id,
          name,
        )
      ]

  Checked-complete :
      (accepts : String → Bool) (db : d.Store) (header : String) (c : UserContext)
      → Authorised accepts db header c
      → Checked accepts db header c
  unfolding validate_jwt get_user_info
  Checked-complete accepts db header c (token, claims, row, e, f, g, role, ok, id, name) = (
    token,
    claims,
    user_of_row row,
    (bearer_token_iff header token).1 e,
    ground arith,
    ground arith,
    ap some role,
    ok,
    id,
    name,
  )

  pub require_role_iff-Authorised :
      (accepts : String → Bool) (db : d.Store) (header : String) (c : UserContext)
      → (require_role d jwt now accepts db header ≡ passed c) ↔ Authorised accepts db header c
  require_role_iff-Authorised accepts db header c =
      let (sound, complete) = require_role_iff accepts db header c in
      (
        λ h. Checked-sound accepts db header c (sound h),
        λ h. complete (Checked-complete accepts db header c h),
      )

  -- `RequireUserRole` lets a request pass, with a context, exactly if its header holds a valid
  -- token of a user whom the database knows with the required role, and the context is that of the
  -- token and this role.
  pub require_user_role_iff :
      (required : String) (db : d.Store) (header : String) (c : UserContext)
      → (require_user_role d jwt now required db header ≡ passed c)
        ↔ Authorised (λ role. str_eq role required) db header c
  unfolding require_user_role
  require_user_role_iff required = require_role_iff-Authorised (λ role. str_eq role required)

  -- Whoever is let pass as an admin is let pass as any user, with the same context.
  require_admin_role-require_any_user_role :
      (db : d.Store) (header : String) (c : UserContext)
      → require_admin_role d jwt now db header ≡ passed c
      → require_any_user_role d jwt now db header ≡ passed c
  unfolding require_admin_role require_any_user_role require_user_role
  require_admin_role-require_any_user_role db header c h =
      let (token, claims, u, e, f, at, role, ok, id, name) =
        require_role_sound (λ role. str_eq role "ADMIN") db header c h in
      (require_role_iff (λ role. str_eq role "USER" || str_eq role "ADMIN") db header c).1
        (token, claims, u, e, f, at, role, ground arith, id, name)
