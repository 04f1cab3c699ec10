-- ===== src/Server/Lives.antt =====
-- cmd: the life of a server, from one request or session to the next.
pub mod Safety
pub mod Starts
pub mod Users
pub mod Admins
use pomodoro_backend.Base.{List, refl, ap, ◌∙◌, String, ◌≡◌, Option, none, some}
use pomodoro_backend.Clock.Time.{Time}
use pomodoro_backend.Clock.Redis.{Redis}
use pomodoro_backend.Clock.Runner.{ClockRunner}
use pomodoro_backend.Clock.Runner.Persist.{saver_tick}
use pomodoro_backend.Clock.Runner.Control.{tick, complete}
use pomodoro_backend.Auth.User.{Jwt}
use pomodoro_backend.Auth.Repo.{Database}
use pomodoro_backend.Server.Connect.{Postgres}
use pomodoro_backend.Server.Startup.{Event, start_server}
use pomodoro_backend.Server.Routes.{Call, State, serve}

module _ (r : Redis) (d : Database) (jwt : Jwt) where
  -- A request, with its header; the timer's function is called while there is a timer; a tick; a
  -- periodic save; or the server ends and is started again, whatever Redis holds then.
  pub data Step (w : State r d jwt) : State r d jwt → Type 1 where
    request :
        (now : Time) (header : String) (call : Call) → Step w (serve r d jwt now header call w).0
    completed :
        (now due : Time)
        → w.clock.timer_manager.timer ≡ some due
        → Step w (record w { clock = complete r now w.clock })
    ticked : (now : Time) → Step w (record w { clock = tick now w.clock })
    saved : (now : Time) → Step w (record w { clock = saver_tick r now w.clock })
    restarted :
        (pg : Postgres) (env : String → String) (fetched checked now : Time) (events : List Event)
        (redis : Option r.Store) (cr : ClockRunner r.Store)
        → start_server r pg env fetched checked now events redis ≡ some cr
        → Step w (record w { clock = cr })

  pub data Life (w : State r d jwt) : State r d jwt → Type 1 where
    begin : Life w w
    next : {v v' : State r d jwt} → Life w v → Step v v' → Life w v'

  -- A step with a property is among those of a life.
  pub data Had (P : (v v' : State r d jwt) → Step v v' → Type 1) (w : State r d jwt)
      : (w' : State r d jwt) → Life w w' → Type 1 where
    now_had :
        {v v' : State r d jwt} (life : Life w v) (step : Step v v')
        → P v v' step
        → Had P w v' (next life step)
    before :
        {v v' : State r d jwt} (life : Life w v) (step : Step v v')
        → Had P w v life
        → Had P w v' (next life step)
