-- ===== src/Examples.antt =====
-- The theorems at concrete inputs, and runs of the clock.
pub mod Store
pub mod Lives
pub mod Saved
pub mod Restarts
pub mod Parts
pub mod Users
pub mod Tokens
pub mod Members
pub mod Table
pub mod Accounts
pub mod Servers
pub mod Requests
pub mod Worlds
pub mod Paths
pub mod Runs
