-- ===== src/Handlers.antt =====
-- The request handlers (src/handlers/).
pub mod Modifiers
pub mod AwsChunked
mod Tests
