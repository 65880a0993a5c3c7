-- ===== src/Auth.antt =====
-- server/src/auth: signing in.
pub mod Throttle
pub mod Totp
pub mod Store
pub mod Sessions
pub mod Keys
pub mod Routes
mod Tests
