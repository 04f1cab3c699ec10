-- ===== src/Lib.antt =====
-- The pomodoro backend: a server that keeps one pomodoro clock, saves it in Redis and takes it up
-- again after a restart, and that registers users and guards its routes by their roles.
--
-- The program's parts. A clock (internal/clock/clock_runner.go, `ClockRunner`) is made of a state
-- manager (state.go), a session manager with the schedule and the position in it (session.go), a
-- timer (timer.go) and statistics (statistics.go). The user calls Start, Pause, Stop and Skip; the
-- timer calls the clock back when a session is over (callbacks.go), and then the next session
-- starts. The clock is saved as a hash in Redis at every change and once in a while
-- (persistence_manager.go, redis_persistence.go), and a clock that is made with Redis loads its
-- settings and resumes from the saved state (resume_manager.go). utils.go parses, prints and checks
-- schedules, and prints durations for people. The server (cmd) connects to the
-- database, makes the clock, installs the settings of its environment (main.go, utils.go) and
-- answers requests behind the guards of its routes (routes.go, clock_handler.go, auth_handler.go).
--
-- Which file models which part:
-- - Base: numbers of 64 bits with their wrap-around, lists, texts, decimal numbers in texts.
-- - Clock/Time: `time.Duration` is an integer of 64 bits in nanoseconds; `time.Time` is a natural
--   number of nanoseconds, where 0 is Go's zero time; `Sub` saturates as Go's does.
-- - Clock/State: state.go, and `ClockState` of clock_runner.go. The Go type is a string: a state is
--   one of the five constants, or `other s` with another string s.
-- - Clock/Session: session.go. Clock/Stats: statistics.go. Clock/Timer: timer.go.
-- - Clock/Redis: redis_persistence.go, over the interface `Redis`, with the laws `IsRedis`.
-- - Clock/Runner: clock_runner.go and callbacks.go; Clock/Runner/Persist: persistence_manager.go.
-- - Clock/Resume: resume_manager.go and `NewClockRunnerWithRedis`.
-- - Clock/Scheduling: the schedules of utils.go; Clock/Display: its texts for people.
-- - Clock/Runner/Access: the methods of clock_runner.go that pass on what a part says.
-- - Auth/User and Auth/Guard: internal/auth/model.go. Auth/Repo and Auth/Email: pg_repo.go.
--   Auth/Handlers: cmd/auth_handler.go. Auth/Laws: the behaviour of the database and of jwt that
--   Auth/Passage relies on, from a login to a guard. Auth/Queries: the queries of internal/auth/gen
--   and the repository of pg_repo.go over them; Auth/Queries/Table: scripts/postgres/schema.sql.
-- - Server/Connect, Server/Settings and Server/Startup: cmd/utils.go and cmd/main.go.
--   Server/ClockHandler: cmd/clock_handler.go. Server/Routes: cmd/routes.go, with
--   its table in Server/Routes/Router. Server/Lives: a server from one event to the next.
-- - Examples: the theorems at concrete inputs, with a store in memory in the place of Redis, and a
--   table in memory in the place of PostgreSQL.
-- A method of a Go object is a function of the same name in snake case from the object's record to
-- the record that it leaves, with its error or result beside it. The times that it reads are its
-- arguments, one for each of its readings where they may differ.
--
-- Time and threads. A timer of `time.AfterFunc` is the time at which it is due; that its function is
-- called is a step of its own, `complete_op`, which is possible while there is a timer. The lock of
-- the clock makes its methods atomic steps, and a life of a clock is a list of them in any order
-- (Clock/Runner/Traces). The function of the timer runs without the clock's lock: Clock/Runner/Races
-- puts a Stop or a Skip between its parts. In Clock/Runner/Interleave it goes step by step, with any
-- number of completions at a time and methods in between, and `Reach` is what a new clock gets to. A
-- completion may wait for the timer's lock while a Stop takes its timer away. A method is one step
-- there, and so is a save. Ticks and periodic saves are the steps `tick` and `saver_tick`; they and
-- completions may come while the server waits for its database (`elapse` in Server/Startup, and
-- Server/Startup/Waiting). A server answers one request after the other. Its life (Server/Lives)
-- is a list, in any order, of requests of anyone, completions, ticks, saves, and restarts with whatever Redis holds
-- then, where the database outlives the server; Auth/Queries/Race puts the registration of another
-- user between the validation and the insertion of one.
-- Every function ends: its loops are recursions over lists, but two that use fuel. `connect_to_db`
-- has 11 rounds, as many as its counter takes from 0 beyond 10, and `decimal` one round more than
-- its number, which loses a digit in each.
--
-- Redis is a parameter: the client's calls, with an error at any of them, and the texts of numbers,
-- flags and times. `IsRedis` states what the code relies on: a hash that was written is read again,
-- numbers are read back from their texts, and RFC 3339 keeps whole seconds. `Dated` and `IsKeyed` are
-- what the statistics of single sessions need besides (Clock/Redis/Sessions). Floats are the
-- parameter `Float64`, with what IEEE 754 says of them in `IsFloat64` (Base/Floats).
--
-- The users (internal/auth). A handler registers a user or answers a login with a token, and the
-- guards of the routes let a request pass by its token and the role that the database has for its
-- user. The queries with bcrypt, and jwt, are the interfaces `Database` and `Jwt`. The theorems of
-- Auth/Repo, Auth/Guard and Auth/Handlers assume nothing of them; those of Auth/Passage and
-- Server/Routes/Admins assume `IsDatabase` and `IsJwt`: a row that was inserted is found by its name,
-- with its hash and a role of the type user_role, a password fits its hash, and a token that was
-- signed has no spaces and is read back with its name and id until it expires. `repository` fills
-- `Database` by the statements of internal/auth/gen over the parameter `DbTx`, the driver's `DBTX`,
-- and the parameter `Bcrypt`. `IsPostgres` says what PostgreSQL does for these statements on the table
-- of schema.sql, as long as it answers: the lookups find the row of a name or an email or report that
-- there is none, an insertion puts a row with the values given in front or leaves the table, the
-- constraints of the table hold, and the insertion of a name or an email that is taken is refused by
-- the constraint. `IsBcrypt` says that a password fits the hash made of it. The pool of
-- connections is the parameter `Postgres`. A nil pointer is `none`, an error is its text, a handler
-- gives the status and the text of its answer, and the use of a nil pointer is the answer
-- `panicked`.
--
-- The router (Server/Routes/Router) is the parameter `Chi`: the route for a method and a path, and the
-- middleware, which may answer a request before. `IsChi` says that paths without placeholders match
-- exactly, and that a route is found where the table has one. The reading of bodies as JSON is the parameter `Json`.
--
-- Not modelled: the logs; the Go context of a ticker, of which it counts whether there is one; reads
-- that race with a write where the code leaves a lock out; the opening and closing of the connection
-- to Redis; the weekday of a time, which is a parameter of `get_weekly_stats`; the name of the
-- server's time zone; the encoding of answers as JSON; the http server; `WithTx` of the generated
-- queries, which nothing calls.
pub mod Base
pub mod Clock
pub mod Auth
pub mod Server
pub mod Examples
