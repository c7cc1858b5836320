-- ===== src/Uploader.antt =====
-- The uploader service.
pub mod Coordinator
pub mod Sessions
mod Tests
