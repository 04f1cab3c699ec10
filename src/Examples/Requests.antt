-- ===== src/Examples/Requests.antt =====
-- Requests to the server, with a clock over a store in memory.
use pomodoro_backend.Base.{
  ◌+◌, ◌-◌, ◌*◌, ◌≡◌, refl, true, false, some, none, [], ◌∷◌, arith, pos, sat64, sub64, wrap64,
  ◌-ℤ◌,
}
use pomodoro_backend.Clock.Time.{Time, second, minute, time_sub}
use pomodoro_backend.Clock.State.{idle}
use pomodoro_backend.Clock.Timer.{get_time_remaining}
use pomodoro_backend.Clock.Redis.{state_fields, save_system_state}
use pomodoro_backend.Clock.Redis.RoundTrip.{whole_second}
use pomodoro_backend.Clock.Runner.{ClockRunner}
use pomodoro_backend.Clock.Runner.Persist.{system_state}
use pomodoro_backend.Auth.Repo.{UserRow}
use pomodoro_backend.Auth.Handlers.{UserRegistrationResponse}
use pomodoro_backend.Server.ClockHandler.{get_system_state}
use pomodoro_backend.Server.ClockHandler.Reports.{get_system_state_saved}
use pomodoro_backend.Server.Routes.{State}
use pomodoro_backend.Examples.Store.{memory, memory-IsRedis, empty_store}
use pomodoro_backend.Examples.Lives.{at_work}
use pomodoro_backend.Examples.Users.{users, names, one_admin, ben_row}
use pomodoro_backend.Examples.Tokens.{tokens}
use pomodoro_backend.Examples.Members.{members}

abbrev saved_at : Time
saved_at = 10 * second

-- A clock at work whose state was saved.
abbrev saved_clock : ClockRunner memory.Store
saved_clock = record at_work {
  redis_persistence =
      some (save_system_state memory (system_state memory saved_at at_work) empty_store).0;
}

saved_left :
    get_time_remaining saved_at saved_clock.timer_manager ≡ pos (25 * minute + 1000 - saved_at)
unfolding get_time_remaining time_sub sat64 sub64 ◌-ℤ◌ wrap64
saved_left = ground arith

get_system_state_saved_example :
    ((get_system_state memory (60 * second) (60 * second) (61 * second) saved_clock).current_session
      ≡ pos 0)
    × ((get_system_state memory (60 * second) (60 * second) (61 * second) saved_clock).is_active
        ≡ true)
    × ((get_system_state memory (60 * second) (60 * second) (61 * second) saved_clock).end_time
        ≡ memory.format_time (whole_second (saved_at + (25 * minute + 1000 - saved_at))))
unfolding save_system_state system_state
get_system_state_saved_example =
    get_system_state_saved memory memory-IsRedis saved_at (60 * second) (60 * second) (61 * second)
      saved_clock empty_store (state_fields memory (system_state memory saved_at saved_clock))
      (25 * minute + 1000 - saved_at) refl refl saved_left (omega arith) (omega arith) (omega arith)
      (omega arith) refl refl refl

abbrev pub resting_clock : ClockRunner memory.Store
resting_clock = record at_work {
  state_manager = record { state = idle };
  timer_manager = record at_work.timer_manager { timer = none; ticker = false; cancel = false };
}

abbrev pub world : State memory users names
world = record { clock = resting_clock; users = one_admin }

-- Nobody is known, and ben makes himself an admin.
abbrev empty_world : State memory members tokens
empty_world = record { clock = resting_clock; users = [] }

abbrev ben_rules : UserRow
ben_rules = record ben_row { role = "ADMIN" }

abbrev ben_world : State memory members tokens
ben_world = record { clock = resting_clock; users = (ben_rules, "pw") ∷ [] }

abbrev ben_promoted : UserRegistrationResponse
ben_promoted = record { id = "7"; username = "ben"; email = "ben@example.org"; role = "ADMIN" }
