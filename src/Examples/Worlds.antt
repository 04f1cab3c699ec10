-- ===== src/Examples/Worlds.antt =====
-- Lives of servers, and registrations, over a table of users in memory.
use pomodoro_backend.Base.{
  ◌+◌, ◌*◌, ◌≡◌, ◌⊎◌, refl, ap, inl, some, none, [], ◌∷◌, arith, is_blank, is_space, contains,
}
use pomodoro_backend.Clock.Time.{minute}
use pomodoro_backend.Clock.Session.{get_current_session_state}
use pomodoro_backend.Clock.Runner.{ClockRunner}
use pomodoro_backend.Clock.Runner.Control.{tick, complete}
use pomodoro_backend.Clock.Runner.Persist.{saver_tick}
use pomodoro_backend.Clock.Resume.Robust.{IsSafe}
use pomodoro_backend.Auth.User.{User, new_user_from_request}
use pomodoro_backend.Auth.Email.{matches_email}
use pomodoro_backend.Auth.Repo.{Database, create_user, store_user, validate_new_user}
use pomodoro_backend.Auth.Laws.{IsDatabase}
use pomodoro_backend.Auth.Handlers.{failed, creation_answer}
use pomodoro_backend.Auth.Queries.{repository, get_user_by_username, get_user_by_email}
use pomodoro_backend.Auth.Queries.Table.{UserRecord, select}
use pomodoro_backend.Auth.Queries.Repository.{repository-IsDatabase}
use pomodoro_backend.Auth.Queries.Race.{late_registration}
use pomodoro_backend.Server.Routes.{State, register, system_start, profile, serve}
use pomodoro_backend.Server.Lives.{
  Life, begin, next, request, completed, ticked, saved, restarted, Had,
}
use pomodoro_backend.Server.Lives.Safety.{Life-IsSafe}
use pomodoro_backend.Server.Startup.Waiting.{IsResting}
use pomodoro_backend.Server.Lives.Starts.{IsByAdmin, IsResumed, Life-IsResting}
use pomodoro_backend.Server.Lives.Users.{IsPromotion, Life-keeps_user}
use pomodoro_backend.Server.Lives.Admins.{HasNoAdmin, HasNoAdmin-IsResting}
use pomodoro_backend.Examples.Store.{memory, empty_store}
use pomodoro_backend.Examples.Lives.{at_work}
use pomodoro_backend.Examples.Users.{names, ben, ben_registers}
use pomodoro_backend.Examples.Requests.{resting_clock}
use pomodoro_backend.Examples.Servers.{third_time, two_sessions, env_of, waited, started}
use pomodoro_backend.Examples.Table.{
  Users, table, table_rows, table-IsPostgres, plain, plain-IsBcrypt,
}

repository-IsDatabase_example : IsDatabase (repository table plain)
repository-IsDatabase_example = repository-IsDatabase table table-IsPostgres plain plain-IsBcrypt

abbrev in_table : Database
in_table = repository table plain

abbrev nobody : Users
nobody = ([], tt)

abbrev ben_record : UserRecord
ben_record = record {
  id = "7";
  username = "ben";
  email = "ben@example.org";
  password_hash = "pw";
  role = "USER";
  created_at = 1000;
}

abbrev only_ben : Users
only_ben = (ben_record ∷ [], (inl refl, refl, refl, refl, tt))

abbrev ben_user : User
ben_user = record (new_user_from_request ben) { email = some "ben@example.org" }

ben_valid : validate_new_user in_table nobody ben_user ≡ none
unfolding validate_new_user get_user_by_username get_user_by_email is_blank is_space matches_email
    new_user_from_request contains
ben_valid = refl

ben_found : select (λ x. x.username) "ben" (table-IsPostgres.rows only_ben) ≡ some ben_record
ben_found = ap (select (λ x. x.username) "ben") (table_rows only_ben)

late_registration_example :
    ((creation_answer in_table names 9 "Failed to create user"
        (store_user in_table only_ben "pw" ben_user)).1
      ≡ failed 500 "Failed to create user" "Internal server error")
    × (table-IsPostgres.rows
          (creation_answer in_table names 9 "Failed to create user"
            (store_user in_table only_ben "pw" ben_user)).0
        ≡ table-IsPostgres.rows only_ben)
    × (creation_answer in_table names 9 "Failed to create user"
          (create_user in_table only_ben ben_user)
        ≡ (only_ben, failed 409 "User already exists" "username already exists"))
unfolding new_user_from_request
late_registration_example =
    late_registration table table-IsPostgres plain names 9 "Failed to create user" nobody only_ben
      ben_user "pw" "pw" "USER" ben_record refl refl refl ben_valid ben_found

abbrev resting : State memory in_table names
resting = record { clock = resting_clock; users = nobody }

-- The server at work, of which someone asks for a profile, and whose session ends.
abbrev working_world : State memory in_table names
working_world = record { clock = at_work; users = only_ben }

at_work-IsSafe : IsSafe at_work
unfolding get_current_session_state
at_work-IsSafe = ground arith

abbrev session_ended : ClockRunner memory.Store
session_ended = complete memory (1000 + 25 * minute) at_work

Life-IsSafe_example :
    IsSafe (saver_tick memory (1001 + 25 * minute) (tick (1001 + 25 * minute) session_ended))
Life-IsSafe_example =
    Life-IsSafe memory in_table names working_world
      (record working_world {
        clock = saver_tick memory (1001 + 25 * minute) (tick (1001 + 25 * minute) session_ended);
      })
      (next
        (next (next begin (completed (1000 + 25 * minute) (1000 + 25 * minute) refl))
          (ticked (1001 + 25 * minute)))
        (saved (1001 + 25 * minute)))
      at_work-IsSafe

resting_clock-IsResting : IsResting resting_clock
resting_clock-IsResting = record { at_rest = refl; no_timer = refl }

-- Ben registers, and asks for the start of the clock.
abbrev with_ben : State memory in_table names
with_ben = (serve memory in_table names 9 "" (register ben_registers) resting).0

abbrev ben_asked : State memory in_table names
ben_asked = (serve memory in_table names 60 "Bearer ben" system_start with_ben).0

abbrev ben_asks : Life memory in_table names resting ben_asked
ben_asks =
    next (next begin (request 9 "" (register ben_registers))) (request 60 "Bearer ben" system_start)

Life-IsResting_example :
    IsResting ben_asked.clock
    ⊎ Had memory in_table names (IsByAdmin memory in_table names) resting ben_asked ben_asks
    ⊎ Had memory in_table names (IsResumed memory in_table names) resting ben_asked ben_asks
Life-IsResting_example =
    Life-IsResting memory in_table names resting ben_asked ben_asks resting_clock-IsResting

no_admin : HasNoAdmin memory table table-IsPostgres plain names nobody
no_admin name u h = absurd (ground (arith, h, table_rows nobody))

HasNoAdmin-IsResting_example :
    IsResting ben_asked.clock
    ⊎ Had memory in_table names
        (IsPromotion memory table table-IsPostgres plain names)
        resting
        ben_asked
        ben_asks
    ⊎ Had memory in_table names (IsResumed memory in_table names) resting ben_asked ben_asks
HasNoAdmin-IsResting_example =
    HasNoAdmin-IsResting memory table table-IsPostgres plain names resting ben_asked ben_asks
      resting_clock-IsResting no_admin

-- The server ends with ben in its table, and is started again.
abbrev begun : State memory in_table names
begun = record working_world { clock = (started (some empty_store)).0 }

Life-keeps_user_example :
    select
      (λ x. x.username)
      "ben"
      (table-IsPostgres.rows (serve memory in_table names 60 "" profile begun).0.users)
    ≡ some ben_record
Life-keeps_user_example =
    Life-keeps_user memory table table-IsPostgres plain names working_world
      (serve memory in_table names 60 "" profile begun).0
      (next
        (next begin (
          restarted third_time (env_of two_sessions) 59 60 61 waited (some empty_store)
            (started (some empty_store)).0 (started (some empty_store)).1))
        (request 60 "" profile))
      "ben" ben_record ben_found
