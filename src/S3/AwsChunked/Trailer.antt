-- ===== src/S3/AwsChunked/Trailer.antt =====
-- The trailer lines behind the final chunk (src/s3/aws_chunked.rs).
use tiny_s3_proxy.Text.{Bytes, codes, eq_ignore_ascii_case, split_once, trim}
use tiny_s3_proxy.Prelude.{
  Option, Result, err, if◌then◌else◌, length, none, not, ok, some, ◌==◌, ◌>>=◌, ◌>>◌,
}
use tiny_s3_proxy.Auth.Crypto.{Crypto}
use tiny_s3_proxy.S3.Checksum.{ChecksumAlgorithm, ChecksumHeader, header_name, digest_len}
use tiny_s3_proxy.S3.AwsChunked.Types.{
  SignedChunkAlgorithm, AwsChunkedError, malformed_frame, truncated, missing_trailer,
  invalid_trailer, invalid_trailer_checksum, invalid_trailer_signature,
}
use tiny_s3_proxy.S3.AwsChunked.Inbound.{Inbound, read_trailer_line}
use tiny_s3_proxy.S3.AwsChunked.Header.{validate_chunk_signature_shape}

-- The name and the value of a trailer line, trimmed.
unfoldable pub parse_trailer_line : Bytes → Option (Bytes × Bytes)
parse_trailer_line line = elim (split_once b':' line) [
  | none ↦ none
  | some (name, value) ↦ some (trim name, trim value)
]

-- The errors that the signature line has of its own.
unfoldable pub as_trailer_signature_error : AwsChunkedError → AwsChunkedError
as_trailer_signature_error truncated = invalid_trailer_signature
as_trailer_signature_error (missing_trailer _) = invalid_trailer_signature
as_trailer_signature_error e = e

unfoldable pub as_trailer_shape_error : AwsChunkedError → AwsChunkedError
as_trailer_shape_error (malformed_frame _) = invalid_trailer_signature
as_trailer_shape_error e = e

abbrev pub map_err {ℓ} : {E A : Type ℓ} → (E → E) → Result E A → Result E A
map_err f (ok a) = ok a
map_err f (err e) = err (f e)

module _ (crypto : Crypto) where
  -- `parsed` is the split and trimmed line.
  unfoldable pub validate_trailer :
      Bytes → ChecksumAlgorithm → Option (Bytes × Bytes) → Result AwsChunkedError ChecksumHeader
  validate_trailer expected_name algorithm none = err invalid_trailer
  validate_trailer expected_name algorithm (some (name, value)) =
      if not (eq_ignore_ascii_case name expected_name)
      then err invalid_trailer
      else elim (crypto.base64_decode value) [
        | none ↦ err invalid_trailer_checksum
        | some decoded ↦
            if not (length decoded == digest_len algorithm)
            then err invalid_trailer_checksum
            else ok (record { algorithm = algorithm; name = header_name algorithm; value = value })
      ]

  unfoldable pub read_and_validate_trailer :
      Bytes → ChecksumAlgorithm → Inbound → Result AwsChunkedError (ChecksumHeader × Inbound)
  unfolding parse_trailer_line validate_trailer
  read_and_validate_trailer expected_name algorithm i = do
    (line, i') ← read_trailer_line expected_name i
    header ← validate_trailer expected_name algorithm (parse_trailer_line line)
    ok (header, i')

  unfoldable pub validate_trailer_signature :
      SignedChunkAlgorithm → Option (Bytes × Bytes) → Result AwsChunkedError Bytes
  unfolding as_trailer_shape_error
  validate_trailer_signature algorithm none = err invalid_trailer_signature
  validate_trailer_signature algorithm (some (name, sig)) =
      if not (eq_ignore_ascii_case name (codes "x-amz-trailer-signature"))
      then err invalid_trailer_signature
      else do
        map_err as_trailer_shape_error (validate_chunk_signature_shape crypto sig algorithm)
        ok sig

  unfoldable pub read_and_validate_trailer_signature :
      SignedChunkAlgorithm → Inbound → Result AwsChunkedError (Bytes × Inbound)
  unfolding parse_trailer_line validate_trailer_signature as_trailer_signature_error
  read_and_validate_trailer_signature algorithm i = do
    (line, i') ←
        map_err as_trailer_signature_error (read_trailer_line (codes "x-amz-trailer-signature") i)
    sig ← validate_trailer_signature algorithm (parse_trailer_line line)
    ok (sig, i')
