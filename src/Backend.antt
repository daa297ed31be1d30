-- ===== src/Backend.antt =====
-- The client of the backend (src/backend/).
pub mod Retry
pub mod Models
mod Tests
