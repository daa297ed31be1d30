-- ===== src/S3.antt =====
-- The S3 protocol layer (src/s3/).
pub mod Checksum
pub mod Errors
pub mod AwsChunked
pub mod Ops
pub mod Parse
mod Tests
