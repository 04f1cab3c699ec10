-- ===== src/Server.antt =====
-- cmd: the start of the server, its routes and the handlers of the clock.
pub mod Connect
pub mod Settings
pub mod Startup
pub mod ClockHandler
pub mod Routes
pub mod Lives
