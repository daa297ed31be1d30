-- ===== src/S3/AwsChunked/Header.antt =====
-- Chunk headers, `<hex-size>` with an optional `;chunk-signature=<hex>` (src/s3/aws_chunked.rs).
pub mod RoundTrip
pub mod Shape
use tiny_s3_proxy.Text.{Bytes, codes, contains_byte, split_once, strip_prefix}
use tiny_s3_proxy.Prelude.{
  Option, Result, all, err, if◌then◌else◌, is_empty, length, none, not, ok, some, ℕ, ◌==◌, ◌>>=◌,
  ◌>>◌,
}
use tiny_s3_proxy.Text.Numbers.{parse_hex_u64, is_lower_hex_byte}
use tiny_s3_proxy.Auth.Crypto.{Crypto}
use tiny_s3_proxy.Auth.SigV4a.Crypto.{parse_streaming_der_signature_hex_padded}
use tiny_s3_proxy.S3.AwsChunked.Types.{
  SignedChunkAlgorithm, hmac_sha256, ecdsa_p256, AwsChunkedError, malformed_frame,
  unexpected_extension, missing_extension, extension_not_signature, signature_length,
  signature_not_lower_hex, signature_not_der, empty_size, size_not_hex, chunk_signature_hex_len,
}

pub record ParsedChunkHeader : Type 0 where
  pub size : ℕ
  pub signature_hex : Option Bytes

unfoldable pub parse_chunk_size : Bytes → Result AwsChunkedError ℕ
parse_chunk_size size_part =
    if is_empty size_part
    then err (malformed_frame empty_size)
    else elim (parse_hex_u64 size_part) [
      | none ↦ err (malformed_frame size_not_hex)
      | some size ↦ ok size
    ]

module _ (crypto : Crypto) where
  unfoldable pub validate_chunk_signature_shape :
      Bytes → SignedChunkAlgorithm → Result AwsChunkedError (Unit {0})
  validate_chunk_signature_shape sig_hex hmac_sha256 =
      if not (length sig_hex == chunk_signature_hex_len)
      then err (malformed_frame signature_length)
      else if not (all is_lower_hex_byte sig_hex)
      then err (malformed_frame signature_not_lower_hex)
      else ok tt
  validate_chunk_signature_shape sig_hex ecdsa_p256 =
      elim (parse_streaming_der_signature_hex_padded crypto sig_hex) [
        | ok _ ↦ ok tt
        | err _ ↦ err (malformed_frame signature_not_der)
      ]

  -- The part behind the `;`.
  unfoldable pub parse_signature_part : Bytes → SignedChunkAlgorithm → Result AwsChunkedError Bytes
  parse_signature_part sig_part algorithm =
      elim (strip_prefix sig_part (codes "chunk-signature=")) [
        | none ↦ err (malformed_frame extension_not_signature)
        | some sig_hex ↦ do validate_chunk_signature_shape sig_hex algorithm; ok sig_hex
      ]

  unfoldable pub parse_chunk_header :
      Bytes → Option SignedChunkAlgorithm → Result AwsChunkedError ParsedChunkHeader
  unfolding parse_signature_part
  parse_chunk_header line none =
      if contains_byte b';' line
      then err (malformed_frame unexpected_extension)
      else do size ← parse_chunk_size line; ok (record { size = size; signature_hex = none })
  parse_chunk_header line (some algorithm) = elim (split_once b';' line) [
    | none ↦ err (malformed_frame missing_extension)
    | some (size_part, sig_part) ↦ do
      size ← parse_chunk_size size_part
      sig_hex ← parse_signature_part sig_part algorithm
      ok (record { size = size; signature_hex = some sig_hex })
  ]
