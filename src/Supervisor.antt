-- ===== src/Supervisor.antt =====
-- server/src/supervisor: the processes of the gateway and of the tenants' workers.
pub mod Model
pub mod Workers
pub mod Processes
pub mod Endings
pub mod Fates
pub mod Shutdown
mod Tests
