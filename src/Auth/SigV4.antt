-- ===== src/Auth/SigV4.antt =====
-- SigV4 with HMAC-SHA256 (src/auth/sigv4/).
pub mod Streaming
