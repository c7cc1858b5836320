-- ===== src/Client.antt =====
-- client/: the smart client.
pub mod Buffer
pub mod Scheduler
pub mod NetworkMonitor
pub mod Player
mod Tests
