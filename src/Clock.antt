-- ===== src/Clock.antt =====
-- internal/clock: the pomodoro clock, its parts and their composition.
pub mod Time
pub mod State
pub mod Session
pub mod Stats
pub mod Timer
pub mod Redis
pub mod Runner
pub mod Resume
pub mod Scheduling
pub mod Display
