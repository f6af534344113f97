-- ===== src/Auth.antt =====
-- internal/auth: login limiting, credentials and sessions.
pub mod Limiter
mod Tests
