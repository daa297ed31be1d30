-- ===== src/Handlers/AwsChunked/Strict.antt =====
-- Strict verification of the uploads (src/handlers/aws_chunked.rs).
use tiny_s3_proxy.Handlers.AwsChunked.Mode.{decoder_mode_from_headers, signature_policy_for_decode}
use tiny_s3_proxy.Auth.Verified.{VerifiedRequest}
use tiny_s3_proxy.Auth.Crypto.{Crypto}
use tiny_s3_proxy.Http.{HttpCrates, HeaderMap}
use tiny_s3_proxy.Text.{Bytes}
use tiny_s3_proxy.S3.AwsChunked.Inbound.{Inbound, bytes as wire_bytes}
use tiny_s3_proxy.S3.AwsChunked.Types.{
  ChunkSignaturePolicy, signed_chunk_algorithm, SignedChunkAlgorithm, DecoderMode, AwsChunkedError,
  DecodedSummary,
}
use tiny_s3_proxy.Handlers.AwsChunked.Upload.{decoded_upload, UploadSpool, UploadState}
use tiny_s3_proxy.Handlers.AwsChunked.Uploaded.{decoded_upload-ok}
use tiny_s3_proxy.S3.AwsChunked.Decoder.Signed.{IsVerified, decode_to_writer-IsVerified}
use tiny_s3_proxy.Handlers.AwsChunked.Policy.{SeededBy, strict_policy-SeededBy}
use mathlib.Core.Path.{subst, sym, ◌∙◌}
use tiny_s3_proxy.Prelude.{◌≡◌, arith, some, ok, Option, true, [], ok_injective}

module _ (http : HttpCrates) (crypto : Crypto) (to_string : AwsChunkedError → Bytes)
    (spool : UploadSpool) (state : UploadState) (request_id : Bytes) (headers : HeaderMap)
    (verified : Option VerifiedRequest) (body : Inbound) where
  -- Under strict verification, no body with signed chunks is taken for the backend without their
  -- verification: when the decoding of such an upload succeeds, the request was verified, by the
  -- algorithm of its chunks; and the inbound body is chunks and a final chunk whose headers have the
  -- signatures of their payloads, from the policy with the key, the date, the scope and the
  -- signature of that very request onwards, and the decoded body is their payloads.
  pub strict_upload-IsVerified :
      (mode : DecoderMode) (a : SignedChunkAlgorithm) (summary : DecodedSummary) (bytes : Bytes)
      → state.strict_sigv4 ≡ true
      → decoder_mode_from_headers http headers request_id ≡ ok mode
      → signed_chunk_algorithm mode ≡ some a
      → decoded_upload crypto to_string spool request_id http state headers verified body
        ≡ some (ok (summary, bytes))
      → (v : VerifiedRequest) × (verified ≡ some v)
        × (policy : ChunkSignaturePolicy) × SeededBy v a policy
        × IsVerified crypto policy (wire_bytes body) [] bytes
  strict_upload-IsVerified mode a summary bytes strict has_mode signed h =
      let (plan, planned, decodes) =
        decoded_upload-ok http state headers verified request_id crypto to_string spool body summary
          bytes h in
      let same : plan.mode ≡ mode = ok_injective (sym planned.has_mode ∙ has_mode) in
      let signs : signed_chunk_algorithm plan.mode ≡ some a =
        subst (λ x. signed_chunk_algorithm x ≡ some a) (sym same) signed in
      let (v, has, seeded) =
        strict_policy-SeededBy plan.mode a verified request_id plan.signature_policy signs (
          subst
            (λ x.
              signature_policy_for_decode plan.mode verified x request_id
              ≡ ok plan.signature_policy)
            strict planned.has_policy) in
      (
        v,
        has,
        plan.signature_policy,
        seeded,
        decode_to_writer-IsVerified crypto spool.write_all body plan.declared_len plan.mode
            plan.signature_policy summary bytes (ground (arith, signs)) decodes,
      )
