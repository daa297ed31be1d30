-- ===== src/Handlers/AwsChunked/Mode.antt =====
-- The decoder's mode and policy, from the headers of the request and its verification
-- (src/handlers/aws_chunked.rs).
use tiny_s3_proxy.Prelude.{
  Bool, Option, Result, [], err, if◌then◌else◌, is_empty, ltb, none, ok, some, ℕ, ◌++◌, ◌>>=◌,
}
use tiny_s3_proxy.Text.{Bytes, bytes_eq, codes, trim, uppercase}
use tiny_s3_proxy.Text.Numbers.{to_decimal}
use tiny_s3_proxy.Http.{HeaderMap, HttpCrates}
use tiny_s3_proxy.Auth.Verified.{VerifiedRequest, ecdsa_context, hmac_context}
use tiny_s3_proxy.S3.AwsChunked.Types.{
  ChunkSignaturePolicy, DecoderMode, SignedChunkAlgorithm, ecdsa_p256, hmac_sha256, non_trailer,
  shape_only, signed_trailer, unsigned_trailer, verify_ecdsa, verify_hmac,
}
use tiny_s3_proxy.S3.Checksum.{ChecksumHeader, from_header_name, header_name}
use tiny_s3_proxy.S3.Errors.{
  S3Error, bad_request, entity_too_large, internal_error, invalid_argument,
}
use tiny_s3_proxy.Handlers.AwsChunked.{parse_u64, single_value}

module _ (http : HttpCrates) (headers : HeaderMap) (request_id : Bytes) where
  unfoldable pub read_declared_decoded_length : Result S3Error ℕ
  unfolding single_value parse_u64
  read_declared_decoded_length = do
    s ←
        single_value http (codes "x-amz-decoded-content-length") headers
          (invalid_argument
            (codes "aws-chunked upload missing required header x-amz-decoded-content-length")
            request_id)
          (invalid_argument
            (codes
              "aws-chunked upload has multiple x-amz-decoded-content-length headers; only one is supported")
            request_id)
          (invalid_argument (codes "x-amz-decoded-content-length header was not valid ASCII")
            request_id)
    elim (parse_u64 s) [
      | none ↦ err (
          invalid_argument
            (codes "x-amz-decoded-content-length header was not a non-negative integer") request_id)
      | some n ↦ ok n
    ]

  unfoldable pub read_declared_trailer : Result S3Error ChecksumHeader
  unfolding single_value
  read_declared_trailer = do
    value ←
        single_value http (codes "x-amz-trailer") headers
          (bad_request
            (codes "trailer-mode aws-chunked upload missing required x-amz-trailer header")
            request_id)
          (bad_request
            (codes
              "trailer-mode aws-chunked upload has multiple x-amz-trailer headers; only one is supported")
            request_id)
          (bad_request (codes "x-amz-trailer header was not valid ASCII") request_id)
    elim (from_header_name (trim value)) [
      | none ↦ err (
          bad_request
            (codes "x-amz-trailer declared unsupported trailer header `" ++ trim value ++ codes "`")
            request_id)
      | some algo ↦ ok (record { algorithm = algo; name = header_name algo; value = [] })
    ]

  -- The mode of a trailer sentinel, by the sentinel in uppercase.
  unfoldable pub trailer_mode :
      (sentinel upper : Bytes) → ChecksumHeader → Result S3Error DecoderMode
  trailer_mode sentinel upper header =
      if bytes_eq upper (codes "STREAMING-UNSIGNED-PAYLOAD-TRAILER")
      then ok (unsigned_trailer header.name header.algorithm)
      else if bytes_eq upper (codes "STREAMING-AWS4-HMAC-SHA256-PAYLOAD-TRAILER")
      then ok (signed_trailer header.name header.algorithm hmac_sha256)
      else if bytes_eq upper (codes "STREAMING-AWS4-ECDSA-P256-SHA256-PAYLOAD-TRAILER")
      then ok (signed_trailer header.name header.algorithm ecdsa_p256)
      else err (
          bad_request
            (codes "unsupported aws-chunked sentinel `"
              ++ sentinel
              ++ codes "` reached the decode path")
            request_id)

  unfoldable pub mode_of_sentinel : (sentinel : Bytes) → Result S3Error DecoderMode
  unfolding trailer_mode read_declared_trailer
  mode_of_sentinel sentinel =
      let upper = uppercase sentinel in
      let with_trailer = read_declared_trailer >>= λ header. trailer_mode sentinel upper header in
      if is_empty sentinel
      then err (bad_request (codes "x-amz-content-sha256 header was empty") request_id)
      else if bytes_eq upper (codes "STREAMING-AWS4-HMAC-SHA256-PAYLOAD")
      then ok (non_trailer hmac_sha256)
      else if bytes_eq upper (codes "STREAMING-AWS4-ECDSA-P256-SHA256-PAYLOAD")
      then ok (non_trailer ecdsa_p256)
      else with_trailer

  unfoldable pub decoder_mode_from_headers : Result S3Error DecoderMode
  unfolding mode_of_sentinel single_value
  decoder_mode_from_headers = do
    raw ←
        single_value http (codes "x-amz-content-sha256") headers
          (bad_request (codes "aws-chunked decode path requires x-amz-content-sha256 header")
            request_id)
          (bad_request
            (codes
              "aws-chunked decode path has multiple x-amz-content-sha256 headers; only one is supported")
            request_id)
          (bad_request (codes "x-amz-content-sha256 header was not valid ASCII") request_id)
    mode_of_sentinel (trim raw)

-- None if the declared length is within the limit.
unfoldable pub reject_if_oversized :
    (max_request_body_bytes declared_len : ℕ) → (request_id : Bytes) → Option S3Error
reject_if_oversized max_request_body_bytes declared_len request_id =
    let message =
      codes "x-amz-decoded-content-length "
      ++ to_decimal declared_len
      ++ codes " exceeds configured max_request_body_bytes ("
      ++ to_decimal max_request_body_bytes
      ++ codes ")" in
    if ltb max_request_body_bytes declared_len
    then some (entity_too_large message request_id)
    else none

unfoldable pub policy_of_context :
    SignedChunkAlgorithm
    → VerifiedRequest
    → (request_id : Bytes) → Result S3Error ChunkSignaturePolicy
unfolding hmac_context ecdsa_context
policy_of_context hmac_sha256 v request_id = elim (hmac_context v) [
  | some ctx ↦ ok (verify_hmac ctx)
  | none ↦ err (
      internal_error
        (codes "strict-mode HMAC aws-chunked decode reached with a non-HMAC VerifiedRequest")
        request_id)
]
policy_of_context ecdsa_p256 v request_id = elim (ecdsa_context v) [
  | some ctx ↦ ok (verify_ecdsa ctx)
  | none ↦ err (
      internal_error
        (codes "strict-mode ECDSA aws-chunked decode reached with a non-SigV4A VerifiedRequest")
        request_id)
]

unfoldable pub strict_policy :
    DecoderMode
    → Option VerifiedRequest
    → (request_id : Bytes) → Result S3Error ChunkSignaturePolicy
unfolding policy_of_context
strict_policy mode none request_id = err (
    internal_error (codes "strict-mode aws-chunked decode reached without a VerifiedRequest")
      request_id)
strict_policy (non_trailer a) (some v) request_id = policy_of_context a v request_id
strict_policy (signed_trailer _ _ a) (some v) request_id = policy_of_context a v request_id
strict_policy (unsigned_trailer _ _) (some v) request_id = ok shape_only

unfoldable pub signature_policy_for_decode :
    DecoderMode
    → Option VerifiedRequest
    → (strict_sigv4 : Bool) → (request_id : Bytes) → Result S3Error ChunkSignaturePolicy
unfolding strict_policy
signature_policy_for_decode mode verified strict_sigv4 request_id =
    if strict_sigv4 then strict_policy mode verified request_id else ok shape_only
