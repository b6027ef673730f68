-- ===== src/Auth.antt =====
-- Local accounts, sessions and their HTTP handlers (internal/auth).
pub mod Sessions
pub mod Password
pub mod Handler
pub mod RandomPassword
pub mod Bootstrap
