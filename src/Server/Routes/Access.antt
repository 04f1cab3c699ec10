-- ===== src/Server/Routes/Access.antt =====
-- cmd/routes.go: who changes what.
use text.Mathlib.Text.{◌==◌ as str_eq}
use pomodoro_backend.Base.{ℕ, String, ◌≡◌, refl, ◌⊎◌, inl, inr}
use pomodoro_backend.Clock.Time.{Time}
use pomodoro_backend.Clock.Redis.{Redis}
use pomodoro_backend.Auth.User.{Jwt}
use pomodoro_backend.Auth.Repo.{Database}
use pomodoro_backend.Auth.Guard.{
  UserContext, Verdict, refused, passed, require_admin_role, require_user_role,
  require_any_user_role,
}
use pomodoro_backend.Auth.Guard.Access.{Authorised, require_role_iff-Authorised}
use pomodoro_backend.Server.Routes.{
  Call, system_state, system_start, register, login, register_admin, profile, State, Reply, behind,
  serve, serve_state,
}

pub Verdict-cases :
    (v : Verdict) → ((s : ℕ) × (v ≡ refused s)) ⊎ ((c : UserContext) × (v ≡ passed c))
Verdict-cases (refused s) = inl (s, refl)
Verdict-cases (passed c) = inr (c, refl)

-- A handler that keeps a part of the world keeps it behind a guard.
pub behind_keeps {ℓ κ} :
    {W : Type ℓ} {A : Type κ} (f : W → A) (v : Verdict) (w : W) (handler : UserContext → W × Reply)
    → ((c : UserContext) → f (handler c).0 ≡ f w)
    → f (behind v w handler).0 ≡ f w
behind_keeps f (refused s) w handler keep = refl
behind_keeps f (passed c) w handler keep = keep c

module _ (r : Redis) (d : Database) (jwt : Jwt) where
  pub admin_passed :
      (now : Time) (header : String) (w : State r d jwt) (c : UserContext)
      → require_admin_role d jwt now w.users header ≡ passed c
      → Authorised d jwt now (λ role. str_eq role "ADMIN") w.users header c
  unfolding require_admin_role require_user_role
  admin_passed now header w c e =
      (require_role_iff-Authorised d jwt now (λ role. str_eq role "ADMIN") w.users header c).0 e

  -- A request leaves the clock as it was, or it is one for its start, with a valid token of a user
  -- whom the database knows as an admin.
  pub serve_clock :
      (now : Time) (header : String) (call : Call) (w : State r d jwt)
      → ((serve r d jwt now header call w).0.clock ≡ w.clock)
        ⊎ ((call ≡ system_start)
            × ((c : UserContext) × Authorised d jwt now
                  (λ role. str_eq role "ADMIN")
                  w.users
                  header
                  c))
  unfolding serve serve_state
  serve_clock now header system_state w = inl (
      behind_keeps (λ (x : State r d jwt). x.clock) (require_any_user_role d jwt now w.users header)
        w _ (λ c. refl))
  serve_clock now header system_start w =
      elim (Verdict-cases (require_admin_role d jwt now w.users header)) [
        | inl (s, e) ↦ inl (rw e)
        | inr (c, e) ↦ inr (refl, (c, admin_passed now header w c e))
      ]
  serve_clock now header (register req) w = inl refl
  serve_clock now header (login req) w = inl refl
  serve_clock now header (register_admin req) w = inl refl
  serve_clock now header profile w = inl (
      behind_keeps (λ (x : State r d jwt). x.clock) (require_any_user_role d jwt now w.users header)
        w _ (λ c. refl))
