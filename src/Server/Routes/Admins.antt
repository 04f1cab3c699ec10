-- ===== src/Server/Routes/Admins.antt =====
-- cmd/routes.go: the registration of admins is open to everyone.
use text.Mathlib.Text.{◌==◌ as str_eq}
use pomodoro_backend.Clock.Time.{Time}
use pomodoro_backend.Clock.Redis.{Redis}
use pomodoro_backend.Server.Routes.{State}
