-- ===== src/Clock/Redis/Repair.antt =====
-- internal/clock/redis_persistence.go: what `validateAndRepairState` makes of a loaded state.
use mathlib.Core.Path.{subst}
use pomodoro_backend.Base.{◌↔◌, ◌≡◌, true, false, arith, pos, ◌≤ℤ◌, ◌&&◌}
use pomodoro_backend.Clock.Redis.{
  SystemState, is_valid_state, is_busy_idle, repair_session, repair_state, repair_idle,
  repair_flags, repair_remaining, validate_and_repair_state,
}

-- A state without inconsistencies.
pub record IsSound (s : SystemState) : Type 0 where
  pub session_low : pos 0 ≤ℤ s.current_session
  pub session_high : s.current_session ≤ℤ pos 100
  pub known : is_valid_state s.state ≡ true
  pub idle_rests : is_busy_idle s ≡ false
  pub one_flag : (s.is_running && s.is_paused) ≡ false
  pub remaining : pos 0 ≤ℤ s.time_remaining

abbrev InRange : SystemState → Type 0
InRange s = (pos 0 ≤ℤ s.current_session) × (s.current_session ≤ℤ pos 100)

abbrev Known : SystemState → Type 0
Known s = InRange s × (is_valid_state s.state ≡ true)

abbrev Rested : SystemState → Type 0
Rested s = Known s × (is_busy_idle s ≡ false)

abbrev Flagged : SystemState → Type 0
Flagged s = Rested s × ((s.is_running && s.is_paused) ≡ false)

repair_session-InRange : (s : SystemState) → InRange (repair_session s)
unfolding repair_session
repair_session-InRange s = ground arith

repair_state-Known : (s : SystemState) → InRange s → Known (repair_state s)
unfolding repair_state
repair_state-Known s h = ground arith

repair_idle-Rested : (s : SystemState) → Known s → Rested (repair_idle s)
unfolding repair_idle
repair_idle-Rested s h = ground arith

repair_flags-Flagged : (s : SystemState) → Rested s → Flagged (repair_flags s)
unfolding repair_flags
repair_flags-Flagged s h = ground arith

repair_remaining-IsSound : (s : SystemState) → Flagged s → IsSound (repair_remaining s)
unfolding repair_remaining
repair_remaining-IsSound s h = ground arith

repaired-IsSound : (s : SystemState) → IsSound (validate_and_repair_state s)
unfolding validate_and_repair_state
repaired-IsSound s =
    let ranged = repair_session-InRange s in
    let known = repair_state-Known (repair_session s) ranged in
    let rested = repair_idle-Rested (repair_state (repair_session s)) known in
    let flagged = repair_flags-Flagged (repair_idle (repair_state (repair_session s))) rested in
    repair_remaining-IsSound (repair_flags (repair_idle (repair_state (repair_session s)))) flagged

pub validate_and_repair_state_id : (s : SystemState) → IsSound s → validate_and_repair_state s ≡ s
unfolding validate_and_repair_state
validate_and_repair_state_id s h = ground arith

-- Every state is sound after the repair, whatever was loaded, and the repair leaves exactly the
-- sound states as they are.
pub validate_and_repair_state_iff :
    (s : SystemState)
    → IsSound (validate_and_repair_state s) × ((validate_and_repair_state s ≡ s) ↔ IsSound s)
validate_and_repair_state_iff s = (
  repaired-IsSound s,
  (λ same. subst (λ t. IsSound t) same (repaired-IsSound s), λ h. validate_and_repair_state_id s h),
)
