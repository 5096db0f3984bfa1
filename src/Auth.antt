-- ===== src/Auth.antt =====
-- internal/auth: sessions, verification codes, rate limits and the first-run setup.
pub mod Model
pub mod Limit
pub mod Sessions
pub mod SignIn
pub mod Mailer
pub mod Gate
pub mod Setup
pub mod Config
mod Tests
