-- ===== src/Auth/Crypto.antt =====
-- The cryptographic crates that the proxy calls: sha2, hmac, p256, aws-smithy-checksums and
-- aws-smithy-types. They are parameters of the model.
use tiny_s3_proxy.Text.{Bytes}
use tiny_s3_proxy.Prelude.{Bool, Option}
use tiny_s3_proxy.S3.Checksum.{ChecksumAlgorithm}

pub record Crypto : Type 0 where
  -- sha2::Sha256 over all bytes given to `update`
  pub sha256 : Bytes → Bytes
  -- hmac::Hmac<Sha256>: key, then data
  pub hmac_sha256 : Bytes → Bytes → Bytes
  -- aws_smithy_checksums over all bytes given to `update`
  pub checksum : ChecksumAlgorithm → Bytes → Bytes
  -- aws_smithy_types::base64::decode
  pub base64_decode : Bytes → Option Bytes
  -- whether p256::ecdsa::Signature::from_der accepts the bytes
  pub is_der : Bytes → Bool
  -- VerifyingKey::verify: key, message, DER signature
  pub p256_verify : Bytes → Bytes → Bytes → Bool
