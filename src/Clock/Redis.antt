-- ===== src/Clock/Redis.antt =====
-- internal/clock/redis_persistence.go: the settings and the state kept in Redis.
pub mod Repair
pub mod RoundTrip
pub mod Sessions
use text.Mathlib.Text.{◌==◌ as str_eq}
use pomodoro_backend.Base.{
  ℕ, ◌+◌, ◌-◌, ◌*◌, ◌%◌, String, ◌≡◌, Bool, true, false, ◌&&◌, ◌||◌, Option, none, some, List, [],
  ◌∷◌, length, if◌then◌else◌, ◌==◌, ℤ, pos, ltb_ℤ,
}
use pomodoro_backend.Clock.Time.{Time, hour, second, time_add}
use pomodoro_backend.Clock.State.{
  ClockState, idle, working, short_break, long_break, paused, other, of_string, to_string, state_eq,
}

-- The fields of a hash.
abbrev pub Fields : Type 0
Fields = List (String × String)

abbrev pub lookup : String → Fields → Option String
lookup k [] = none
lookup k ((j, v) ∷ m) = let rest = lookup k m in if str_eq j k then some v else rest

-- What the program calls of the client go-redis, and the texts in which values travel: the client's
-- text of an int and of a bool, `fmt.Sscanf(s, "%d", …)`, `t.Format(time.RFC3339)`,
-- `time.Parse(time.RFC3339, s)`, and the name of the server's time zone.
-- `hset` returns what the store then holds and whether the call succeeded.
pub record Redis : Type 1 where
  pub Store : Type 0
  pub hset : Store → String → Fields → Store × Bool
  pub hgetall : Store → String → Option Fields
  pub format_int : ℤ → String
  pub format_bool : Bool → String
  pub scan_int : String → Option ℤ
  pub format_time : Time → String
  pub parse_time : String → Option Time
  pub timezone : String

-- The documented behaviour of these calls.
pub record IsRedis (r : Redis) : Type 0 where
  -- A field written by a call that succeeded is what a later read that succeeds finds.
  pub hgetall-hset :
      (db : r.Store) (key : String) (written loaded : Fields) (field value : String)
      → (r.hset db key written).1 ≡ true
      → r.hgetall (r.hset db key written).0 key ≡ some loaded
      → lookup field written ≡ some value
      → lookup field loaded ≡ some value
  pub scan_int-format_int : (n : ℤ) → r.scan_int (r.format_int n) ≡ some n
  pub format_bool_true : r.format_bool true ≡ "1"
  pub format_bool_false : r.format_bool false ≡ "0"
  -- RFC 3339 keeps whole seconds.
  pub parse_time-format_time : (t : Time) → r.parse_time (r.format_time t) ≡ some (t - t % second)

pub record PomodoroSettings : Type 0 where
  pub work_time : ℤ
  pub short_break_time : ℤ
  pub long_break_time : ℤ
  pub scheduling : String

-- `state` is the string of the source, by the state that it names.
pub record SystemState : Type 0 where
  pub current_session : ℤ
  pub end_time : Time
  pub timezone : String
  pub state : ClockState
  pub time_remaining : ℤ
  pub is_running : Bool
  pub is_paused : Bool

-- The tests of `validateAndRepairState`, in their order.
repair_session : SystemState → SystemState
repair_session s =
    if ltb_ℤ s.current_session (pos 0) || ltb_ℤ (pos 100) s.current_session
    then record s { current_session = pos 0 }
    else s

-- `validStates[state]`
abbrev pub is_valid_state : ClockState → Bool
is_valid_state (other _) = false
is_valid_state _ = true

repair_state : SystemState → SystemState
repair_state s = if is_valid_state s.state then s else record s { state = idle }

-- The test of `validateAndRepairState` and of `validateSystemState`.
abbrev pub is_busy_idle : SystemState → Bool
is_busy_idle s =
    state_eq s.state idle && (s.is_running || s.is_paused || ltb_ℤ (pos 0) s.time_remaining)

repair_idle : SystemState → SystemState
repair_idle s =
    if is_busy_idle s
    then record s { is_running = false; is_paused = false; time_remaining = pos 0 }
    else s

repair_flags : SystemState → SystemState
repair_flags s = if s.is_running && s.is_paused then record s { is_running = false } else s

repair_remaining : SystemState → SystemState
repair_remaining s =
    if ltb_ℤ s.time_remaining (pos 0) then record s { time_remaining = pos 0 } else s

unfoldable pub validate_and_repair_state : SystemState → SystemState
unfolding repair_session repair_state repair_idle repair_flags repair_remaining
validate_and_repair_state s =
    repair_remaining (repair_flags (repair_idle (repair_state (repair_session s))))

abbrev pub or_else {ℓ} : {A : Type ℓ} → Option A → A → A
or_else none d = d
or_else (some a) d = a

-- `isRunning == "true" || isRunning == "1"`; a missing field is false.
abbrev pub flag_of : Option String → Bool
flag_of none = false
flag_of (some s) = str_eq s "true" || str_eq s "1"

-- The test `len(result) == 0`
abbrev pub is_empty : Fields → Bool
is_empty [] = true
is_empty (_ ∷ _) = false

module _ (r : Redis) where
  open r use {Store, hset, hgetall, format_int, format_bool, scan_int, format_time, parse_time}

  -- A number whose field is missing is 0, and one that cannot be read is the default.
  abbrev pub int_of : ℤ → Option String → ℤ
  int_of default none = pos 0
  int_of default (some s) = or_else (scan_int s) default

  -- A missing time is the zero time, and one that cannot be read is now.
  abbrev pub time_of : Time → Option String → Time
  time_of now none = 0
  time_of now (some s) = or_else (parse_time s) now

  abbrev pub state_of : Option String → ClockState
  state_of none = idle
  state_of (some s) = of_string s

  abbrev pub settings_fields : PomodoroSettings → Fields
  settings_fields s =
      ("workTime", format_int s.work_time)
      ∷ ("shortBreakTime", format_int s.short_break_time)
      ∷ ("longBreakTime", format_int s.long_break_time)
      ∷ ("scheduling", s.scheduling)
      ∷ []

  -- The store, and whether the call succeeded.
  unfoldable pub save_settings : PomodoroSettings → Store → Store × Bool
  save_settings s db = hset db "pomodoroSettings" (settings_fields s)

  abbrev pub default_settings : PomodoroSettings
  default_settings = record {
    work_time = pos 25;
    short_break_time = pos 5;
    long_break_time = pos 15;
    scheduling = "default";
  }

  unfoldable pub parse_settings : Fields → PomodoroSettings
  parse_settings m = record {
    work_time = int_of (pos 25) (lookup "workTime" m);
    short_break_time = int_of (pos 5) (lookup "shortBreakTime" m);
    long_break_time = int_of (pos 15) (lookup "longBreakTime" m);
    scheduling = or_else (lookup "scheduling" m) "default";
  }

  -- `none` is an error of the client.
  unfoldable pub load_settings : Store → Option PomodoroSettings
  unfolding parse_settings
  load_settings db = elim (hgetall db "pomodoroSettings") [
    | none ↦ none
    | some m ↦ some (if is_empty m then default_settings else parse_settings m)
  ]

  abbrev pub state_fields : SystemState → Fields
  state_fields s =
      ("currentSession", format_int s.current_session)
      ∷ ("endTime", format_time s.end_time)
      ∷ ("timezone", s.timezone)
      ∷ ("state", to_string s.state)
      ∷ ("timeRemaining", format_int s.time_remaining)
      ∷ ("isRunning", format_bool s.is_running)
      ∷ ("isPaused", format_bool s.is_paused)
      ∷ []

  unfoldable pub save_system_state : SystemState → Store → Store × Bool
  save_system_state s db = hset db "systemState" (state_fields s)

  abbrev pub default_state : Time → SystemState
  default_state now = record {
    current_session = pos 0;
    end_time = time_add now (pos (24 * hour));
    timezone = r.timezone;
    state = idle;
    time_remaining = pos 0;
    is_running = false;
    is_paused = false;
  }

  -- The fields as `LoadSystemState` reads them, before the repair.
  unfoldable pub parse_state : Time → Fields → SystemState
  parse_state now m = record {
    current_session = int_of (pos 0) (lookup "currentSession" m);
    end_time = time_of now (lookup "endTime" m);
    timezone = or_else (lookup "timezone" m) r.timezone;
    state = state_of (lookup "state" m);
    time_remaining = int_of (pos 0) (lookup "timeRemaining" m);
    is_running = flag_of (lookup "isRunning" m);
    is_paused = flag_of (lookup "isPaused" m);
  }

  unfoldable pub load_system_state : Time → Store → Option SystemState
  unfolding parse_state validate_and_repair_state
  load_system_state now db = elim (hgetall db "systemState") [
    | none ↦ none
    | some m ↦
        some
          (if is_empty m then default_state now else validate_and_repair_state (parse_state now m))
  ]
