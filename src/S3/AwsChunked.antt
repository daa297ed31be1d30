-- ===== src/S3/AwsChunked.antt =====
-- The aws-chunked wire format (src/s3/aws_chunked.rs).
pub mod Types
pub mod Inbound
pub mod Header
pub mod Trailer
pub mod Panics
pub mod Decoder
pub mod Tests
