-- ===== src/Auth.antt =====
-- Request authentication (src/auth/).
pub mod Crypto
pub mod SigV4
pub mod SigV4a
pub mod Verified
mod Tests
