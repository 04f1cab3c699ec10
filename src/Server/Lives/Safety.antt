-- ===== src/Server/Lives/Safety.antt =====
-- cmd and internal/clock: the clock of a server is safe throughout its life.
use pomodoro_backend.Base.{String, inl, inr, arith}
use pomodoro_backend.Clock.Time.{Time}
use pomodoro_backend.Clock.State.{set_state}
use pomodoro_backend.Clock.Session.{reset_sessions}
use pomodoro_backend.Clock.Session.Schedule.{reset_sessions-IsValid, current_IsSession}
use pomodoro_backend.Clock.Timer.{start_timer, resume_timer, stop_timer}
use pomodoro_backend.Clock.Redis.{Redis}
use pomodoro_backend.Clock.Runner.{ClockRunner, run_save_state, stop_save_state}
use pomodoro_backend.Clock.Runner.Control.{
  start, start_idle, start_paused, start_new_session, complete,
}
use pomodoro_backend.Clock.Resume.Robust.{IsSafe}
use pomodoro_backend.Auth.User.{Jwt}
use pomodoro_backend.Auth.Repo.{Database}
use pomodoro_backend.Server.ClockHandler.{start_new_pomodoro}
use pomodoro_backend.Auth.Guard.{require_admin_role}
use pomodoro_backend.Server.Routes.{Call, State, serve, serve_start}
use pomodoro_backend.Server.Startup.Serving.{start_server-IsSafe}
use pomodoro_backend.Server.Startup.Waiting.{completion-IsSafe, tick-IsSafe, saver_tick-IsSafe}
use pomodoro_backend.Server.Routes.Access.{Verdict-cases, serve_clock}
use pomodoro_backend.Server.Lives.{
  Step, request, completed, ticked, saved, restarted, Life, begin, next,
}

module _ (r : Redis) where
  open r use {Store}

  start-IsSafe : (now : Time) (cr : ClockRunner Store) → IsSafe cr → IsSafe (start r now cr).0
  unfolding start start_idle start_paused start_new_session set_state run_save_state stop_save_state
      start_timer resume_timer stop_timer
  start-IsSafe now cr h = ground (
    arith,
    reset_sessions-IsValid cr.session_manager h.sessions,
    current_IsSession cr.session_manager h.sessions,
    current_IsSession (reset_sessions cr.session_manager)
        (reset_sessions-IsValid cr.session_manager h.sessions),
  )

  module _ (d : Database) (jwt : Jwt) where
    serve_start-IsSafe :
        (now : Time) (w : State r d jwt)
        → IsSafe w.clock
        → IsSafe (serve_start r d jwt now w).0.clock
    unfolding serve_start start_new_pomodoro
    serve_start-IsSafe now w h = ground (arith, start-IsSafe now w.clock h)

    serve-IsSafe :
        (now : Time) (header : String) (call : Call) (w : State r d jwt)
        → IsSafe w.clock
        → IsSafe (serve r d jwt now header call w).0.clock
    unfolding serve
    serve-IsSafe now header call w h = elim (serve_clock r d jwt now header call w) [
      | inl same ↦ rw same h
      | inr (e, admin) ↦ rw e (elim (Verdict-cases (require_admin_role d jwt now w.users header)) [
        | inl (s, v) ↦ rw v h
        | inr (c, v) ↦ rw v (serve_start-IsSafe now w h)
      ])
    ]

    Step-IsSafe : (w w' : State r d jwt) → Step r d jwt w w' → IsSafe w.clock → IsSafe w'.clock
    unfolding complete
    Step-IsSafe w w' (request now header call) h = serve-IsSafe now header call w h
    Step-IsSafe w w' (completed now due set) h =
        completion-IsSafe r w.clock.timer_manager.on_complete now
          w.clock.timer_manager.current_state w.clock h
    Step-IsSafe w w' (ticked now) h = tick-IsSafe r now w.clock h
    Step-IsSafe w w' (saved now) h = saver_tick-IsSafe r now w.clock h
    Step-IsSafe w w' (restarted pg env fetched checked now events redis cr e) h =
        (start_server-IsSafe r pg env fetched checked now events redis cr e).0

    -- A server whose clock is safe keeps it so throughout its life, under requests of anyone,
    -- sessions that end, ticks, saves and restarts: the position is inside a schedule of sessions,
    -- a timer runs only in the state of a session, its ticker runs with it, and no completion is
    -- left under way.
    pub Life-IsSafe : (w w' : State r d jwt) → Life r d jwt w w' → IsSafe w.clock → IsSafe w'.clock
    Life-IsSafe w w' begin h = h
    Life-IsSafe w w' (next life step) h = Step-IsSafe _ w' step (Life-IsSafe w _ life h)
