-- ===== src/S3/AwsChunked/Types.antt =====
-- Modes, policies, results and errors of the decoder (src/s3/aws_chunked.rs).
use tiny_s3_proxy.Text.{Bytes}
use tiny_s3_proxy.Prelude.{Bool, Option, false, none, some, true, ℕ}
use tiny_s3_proxy.S3.Checksum.{ChecksumAlgorithm, ChecksumHeader}
use tiny_s3_proxy.Auth.SigV4.Streaming.{StreamingSigV4Context}
use tiny_s3_proxy.Auth.SigV4a.Streaming.{StreamingSigV4aContext}

abbrev pub max_chunk_header_line_bytes : ℕ
max_chunk_header_line_bytes = 4096

abbrev pub max_trailer_line_bytes : ℕ
max_trailer_line_bytes = max_chunk_header_line_bytes

abbrev pub chunk_signature_hex_len : ℕ
chunk_signature_hex_len = 64

abbrev pub min_non_final_chunk_bytes : ℕ
min_non_final_chunk_bytes = 8192

pub data SignedChunkAlgorithm : Type 0 where
  hmac_sha256 ecdsa_p256 : SignedChunkAlgorithm

pub data DecoderMode : Type 0 where
  non_trailer : SignedChunkAlgorithm → DecoderMode
  unsigned_trailer : (expected_trailer_name : Bytes) → ChecksumAlgorithm → DecoderMode
  signed_trailer :
      (expected_trailer_name : Bytes) → ChecksumAlgorithm → SignedChunkAlgorithm → DecoderMode

unfoldable pub expects_chunk_signature : DecoderMode → Bool
expects_chunk_signature (unsigned_trailer _ _) = false
expects_chunk_signature _ = true

unfoldable pub signed_chunk_algorithm : DecoderMode → Option SignedChunkAlgorithm
signed_chunk_algorithm (non_trailer a) = some a
signed_chunk_algorithm (unsigned_trailer _ _) = none
signed_chunk_algorithm (signed_trailer _ _ a) = some a

-- The name and algorithm of the trailer, and whether a trailer signature follows.
unfoldable pub trailer_info : DecoderMode → Option (Bytes × ChecksumAlgorithm × Bool)
trailer_info (non_trailer _) = none
trailer_info (unsigned_trailer name algorithm) = some (name, algorithm, false)
trailer_info (signed_trailer name algorithm _) = some (name, algorithm, true)

pub record DecodedSummary : Type 0 where
  pub decoded_len : ℕ
  pub sha256 : Bytes
  pub sha256_hex : Bytes
  pub trailer : Option ChecksumHeader

-- The messages of `MalformedFrame`, one constructor for each place that makes one.
pub data Fault : Type 0 where
  header_without_terminator header_without_crlf header_not_utf8 : Fault
  unexpected_extension missing_extension extension_not_signature : Fault
  signature_length signature_not_lower_hex signature_not_der signature_not_hex : Fault
  empty_size size_not_hex expected_crlf : Fault

pub data AwsChunkedError : Type 0 where
  malformed_frame : Fault → AwsChunkedError
  invalid_chunk_size : (chunk_index size min : ℕ) → AwsChunkedError
  decoded_length_mismatch : (declared actual : ℕ) → AwsChunkedError
  decoded_length_exceeded : (declared attempted : ℕ) → AwsChunkedError
  truncated trailing_data chunk_header_too_large inbound_io spool_io : AwsChunkedError
  invalid_trailer : AwsChunkedError
  missing_trailer : Bytes → AwsChunkedError
  invalid_trailer_checksum : AwsChunkedError
  trailer_checksum_mismatch : Bytes → AwsChunkedError
  invalid_trailer_signature : AwsChunkedError
  chunk_signature_mismatch : ℕ → AwsChunkedError
  trailer_signature_mismatch : AwsChunkedError
  -- `unreachable!` and `expect` on `None`: no error of the source, the decoder panics
  panic : AwsChunkedError

pub data ChunkSignaturePolicy : Type 0 where
  shape_only : ChunkSignaturePolicy
  verify_hmac : StreamingSigV4Context → ChunkSignaturePolicy
  verify_ecdsa : StreamingSigV4aContext → ChunkSignaturePolicy
