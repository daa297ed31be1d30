-- ===== src/Handlers/AwsChunked/Upload.antt =====
-- The uploads of decoded bodies: what the handlers read from the request, the decoding into a spool
-- file, and the call of the backend (src/handlers/aws_chunked.rs). The spool file is a parameter:
-- its path, what its creation and its flush answer, and its writer; so is the backend. The file's
-- deletion, which has no bearing on the answer, the purge of the cache and the rendering of the
-- response are not modelled.
use tiny_s3_proxy.S3.AwsChunked.Inbound.{Inbound}
use tiny_s3_proxy.S3.AwsChunked.Decoder.{decode_to_writer, with_mode_and_signature_policy}
use tiny_s3_proxy.Handlers.AwsChunked.{map_decode_error}
use tiny_s3_proxy.Auth.Verified.{VerifiedRequest}
use tiny_s3_proxy.Auth.Crypto.{Crypto}
use tiny_s3_proxy.Handlers.AwsChunked.Mode.{
  reject_if_oversized, read_declared_decoded_length, decoder_mode_from_headers,
  signature_policy_for_decode,
}
use tiny_s3_proxy.S3.AwsChunked.Types.{
  DecoderMode, ChunkSignaturePolicy, AwsChunkedError, DecodedSummary,
}
use tiny_s3_proxy.Prelude.{Bool, Option, Result, err, none, ok, some, ℕ, ◌++◌, ◌>>=◌}
use tiny_s3_proxy.Text.{Bytes, codes}
use tiny_s3_proxy.Http.{HeaderMap, HttpCrates}
use tiny_s3_proxy.S3.Errors.{S3Error, internal_error}

-- The answers of the file system are texts of errors, none for a success.
pub record UploadSpool : Type 0 where
  pub path : Bytes
  pub create_error : Option Bytes
  pub flush_error : Option Bytes
  pub write_all : Bytes → Bytes → Bool

pub record DecodePlan : Type 0 where
  pub declared_len : ℕ
  pub mode : DecoderMode
  pub signature_policy : ChunkSignaturePolicy

-- What the handlers use of `AppState`.
pub record UploadState : Type 0 where
  pub backend_bucket : Bytes
  pub frontend_bucket : Bytes
  pub max_request_body_bytes : ℕ
  pub strict_sigv4 : Bool

unfoldable pub check_size :
    UploadState → (declared_len : ℕ) → (request_id : Bytes) → Result S3Error ℕ
unfolding reject_if_oversized
check_size state declared_len request_id =
    elim (reject_if_oversized state.max_request_body_bytes declared_len request_id) [
      | some e ↦ err e
      | none ↦ ok declared_len
    ]

-- The steps before any byte of the body is read.
unfoldable pub decode_plan :
    HttpCrates
    → UploadState
    → HeaderMap
    → Option VerifiedRequest
    → (request_id : Bytes) → Result S3Error DecodePlan
unfolding read_declared_decoded_length check_size decoder_mode_from_headers
    signature_policy_for_decode
decode_plan http state headers verified request_id = do
  declared ← read_declared_decoded_length http headers request_id
  allowed ← check_size state declared request_id
  mode ← decoder_mode_from_headers http headers request_id
  policy ← signature_policy_for_decode mode verified state.strict_sigv4 request_id
  ok (record { declared_len = allowed; mode = mode; signature_policy = policy })

module _ (crypto : Crypto) (to_string : AwsChunkedError → Bytes) (spool : UploadSpool)
    (request_id : Bytes) where
  -- The flush of what was written.
  unfoldable pub flush_spool : DecodedSummary × Bytes → Result S3Error (DecodedSummary × Bytes)
  flush_spool decoded = elim spool.flush_error [
    | none ↦ ok decoded
    | some e ↦
        err (internal_error (codes "failed to flush aws-chunked spool file: " ++ e) request_id)
  ]

  -- The answer to the decoder's; none for a panic.
  unfoldable pub spooled :
      Result AwsChunkedError (DecodedSummary × Bytes)
      → Option (Result S3Error (DecodedSummary × Bytes))
  unfolding map_decode_error flush_spool
  spooled (err e) = elim (map_decode_error to_string e request_id) [
    | none ↦ none
    | some answer ↦ some (err answer)
  ]
  spooled (ok decoded) = some (flush_spool decoded)

  -- The summary with the contents of the spool file; none for a panic.
  unfoldable pub decode_into_spool :
      Inbound → DecodePlan → Option (Result S3Error (DecodedSummary × Bytes))
  unfolding spooled decode_to_writer with_mode_and_signature_policy
  decode_into_spool body plan = elim spool.create_error [
    | some e ↦
        some
          (err (internal_error (codes "failed to create aws-chunked spool file: " ++ e) request_id))
    | none ↦
        elim (decode_to_writer crypto spool.write_all
          (with_mode_and_signature_policy body plan.declared_len plan.mode plan.signature_policy)) [
            | none ↦ none
            | some r ↦ spooled r
          ]
  ]

  -- From the request to the decoded body.
  unfoldable pub decoded_upload :
      HttpCrates
      → UploadState
      → HeaderMap
      → Option VerifiedRequest
      → Inbound
      → Option (Result S3Error (DecodedSummary × Bytes))
  unfolding decode_plan decode_into_spool
  decoded_upload http state headers verified body =
      elim (decode_plan http state headers verified request_id) [
        | err e ↦ some (err e)
        | ok plan ↦ decode_into_spool body plan
      ]
