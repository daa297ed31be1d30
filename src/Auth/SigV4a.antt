-- ===== src/Auth/SigV4a.antt =====
-- SigV4A with ECDSA P-256 (src/auth/sigv4a/).
pub mod Crypto
pub mod Streaming
pub mod Accepts
