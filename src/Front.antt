-- ===== src/Front.antt =====
-- The gateway: server/src/front.
pub mod Rows
pub mod Config
pub mod Headers
pub mod Gateway
pub mod Forward
pub mod Admin
mod Tests
