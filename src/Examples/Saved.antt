-- ===== src/Examples/Saved.antt =====
-- Saving, loading and resuming with a store in memory.
use pomodoro_backend.Base.{◌↔◌, ◌+◌, ◌*◌, ◌≡◌, refl, true, false, some, arith, pos, negsuc}
use pomodoro_backend.Clock.Time.{second}
use pomodoro_backend.Clock.State.{working, other}
use pomodoro_backend.Clock.Redis.{
  SystemState, state_fields, save_system_state, load_system_state, validate_and_repair_state,
}
use pomodoro_backend.Clock.Redis.Repair.{IsSound, validate_and_repair_state_iff}
use pomodoro_backend.Clock.Redis.RoundTrip.{whole_second, load-save_system_state}
use pomodoro_backend.Examples.Store.{memory, memory-IsRedis, empty_store}

-- The third session, which ends after five minutes and a half second.
abbrev third : SystemState
third = record {
  current_session = pos 2;
  end_time = 300 * second + 500000000;
  timezone = "UTC";
  state = working;
  time_remaining = pos 300000;
  is_running = true;
  is_paused = false;
}

abbrev broken : SystemState
broken = record third { current_session = negsuc 4; state = other "?"; is_paused = true }

third-IsSound : IsSound third
third-IsSound = ground arith

load-save_system_state_example :
    load_system_state memory 1000 (save_system_state memory third empty_store).0
    ≡ some (record third { end_time = whole_second third.end_time })
unfolding save_system_state
load-save_system_state_example =
    load-save_system_state memory memory-IsRedis 1000 third empty_store (state_fields memory third)
      third-IsSound refl refl

validate_and_repair_state_iff_example :
    IsSound (validate_and_repair_state broken)
    × ((validate_and_repair_state broken ≡ broken) ↔ IsSound broken)
validate_and_repair_state_iff_example = validate_and_repair_state_iff broken
