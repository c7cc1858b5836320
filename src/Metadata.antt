-- ===== src/Metadata.antt =====
-- metadata-service/: the coordination layer.
pub mod Tables
pub mod Connection
pub mod Database
pub mod HealthMonitor
pub mod Erasure
pub mod Consensus
pub mod Redundancy
pub mod Manifest
mod Tests
