-- ===== src/Auth.antt =====
-- internal/auth and cmd/auth_handler.go: the users, their tokens, the guards and the handlers.
pub mod User
pub mod Email
pub mod Repo
pub mod Guard
pub mod Queries
pub mod Handlers
pub mod Laws
pub mod Passage
