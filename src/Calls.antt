-- ===== src/Calls.antt =====
-- server/src/wa/calls.ts: the calls of one account.
pub mod Types
pub mod Bridge
pub mod Service
pub mod Lifecycle
pub mod Reports
pub mod Losses
pub mod Clients
pub mod Streams
pub mod Hourly
pub mod Latest
pub mod Mixer
mod Tests
