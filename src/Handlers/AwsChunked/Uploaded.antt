-- ===== src/Handlers/AwsChunked/Uploaded.antt =====
-- What the backend is given of a decoded body (src/handlers/aws_chunked.rs).
use tiny_s3_proxy.S3.AwsChunked.Decoder.{decode_to_writer, with_mode_and_signature_policy}
use tiny_s3_proxy.S3.AwsChunked.Types.{AwsChunkedError, DecodedSummary}
use tiny_s3_proxy.Auth.Crypto.{Crypto}
use tiny_s3_proxy.Handlers.AwsChunked.Mode.{
  read_declared_decoded_length, reject_if_oversized, decoder_mode_from_headers,
  signature_policy_for_decode,
}
use tiny_s3_proxy.Auth.Verified.{VerifiedRequest}
use tiny_s3_proxy.Handlers.AwsChunked.Upload.{
  UploadState, DecodePlan, check_size, decode_plan, UploadSpool, decoded_upload, decode_into_spool,
}
use tiny_s3_proxy.Http.{HttpCrates, HeaderMap}
use tiny_s3_proxy.Text.{Bytes}
use tiny_s3_proxy.S3.AwsChunked.Inbound.{Inbound}
use mathlib.Core.Path.{subst}
use tiny_s3_proxy.Prelude.{
  Bool-cases, ltb, ◌≡◌, ok, some, true, Option, ℕ, leb, inl, inr, Result, arith, Result-cases,
}

module _ (http : HttpCrates) (state : UploadState) (headers : HeaderMap)
    (verified : Option VerifiedRequest) (request_id : Bytes) where
  pub record IsPlan (plan : DecodePlan) : Type 0 where
    pub declared : read_declared_decoded_length http headers request_id ≡ ok plan.declared_len
    pub fits : leb plan.declared_len state.max_request_body_bytes ≡ true
    pub has_mode : decoder_mode_from_headers http headers request_id ≡ ok plan.mode
    pub has_policy :
        signature_policy_for_decode plan.mode verified state.strict_sigv4 request_id
        ≡ ok plan.signature_policy

  check_size-ok :
      (n m : ℕ)
      → check_size state n request_id ≡ ok m
      → (m ≡ n) × (leb n state.max_request_body_bytes ≡ true)
  unfolding check_size reject_if_oversized
  check_size-ok n m h = elim (Bool-cases (ltb state.max_request_body_bytes n)) [
    | inl over ↦ absurd (ground (arith, over, h))
    | inr within ↦ (ground (arith, within, h), ground (arith, within))
  ]

  decode_plan-IsPlan :
      (plan : DecodePlan)
      → decode_plan http state headers verified request_id ≡ ok plan
      → IsPlan plan
  unfolding decode_plan
  decode_plan-IsPlan plan h =
      elim (Result-cases (read_declared_decoded_length http headers request_id)) [
        | inl (x, e) ↦ absurd (ground (arith, e, h))
        | inr (n, declared) ↦ elim (Result-cases (check_size state n request_id)) [
          | inl (x, e) ↦ absurd (ground (arith, declared, e, h))
          | inr (m, checked) ↦
              elim (Result-cases (decoder_mode_from_headers http headers request_id)) [
                | inl (x, e) ↦ absurd (ground (arith, declared, checked, e, h))
                | inr (mode, has_mode) ↦
                    elim (Result-cases
                      (signature_policy_for_decode mode verified state.strict_sigv4 request_id)) [
                        | inl (x, e) ↦ absurd (ground (arith, declared, checked, has_mode, e, h))
                        | inr (policy, has_policy) ↦
                            let (same, fits) = check_size-ok n m checked in
                            let is_plan : IsPlan (record {
                              declared_len = m;
                              mode = mode;
                              signature_policy = policy;
                            }) =
                              record {
                                declared = rw (same) declared;
                                fits = rw (same) fits;
                                has_mode = has_mode;
                                has_policy = has_policy;
                              } in
                            subst IsPlan
                              (ground (arith, declared, checked, has_mode, has_policy, h)) is_plan
                      ]
              ]
        ]
      ]

  module _ (crypto : Crypto) (to_string : AwsChunkedError → Bytes) (spool : UploadSpool)
      (body : Inbound) where
    abbrev decoding : DecodePlan → Option (Result AwsChunkedError (DecodedSummary × Bytes))
    decoding plan =
        decode_to_writer crypto spool.write_all
          (with_mode_and_signature_policy body plan.declared_len plan.mode plan.signature_policy)

    pub decoded_upload-ok :
        (summary : DecodedSummary) (bytes : Bytes)
        → decoded_upload crypto to_string spool request_id http state headers verified body
          ≡ some (ok (summary, bytes))
        → (plan : DecodePlan) × IsPlan plan × (decoding plan ≡ some (ok (summary, bytes)))
    unfolding decoded_upload decode_into_spool
    decoded_upload-ok summary bytes h =
        elim (Result-cases (decode_plan http state headers verified request_id)) [
          | inr (plan, e) ↦ (plan, decode_plan-IsPlan plan e, ground (arith, e, h))
          | inl (x, e) ↦ absurd (ground (arith, e, h))
        ]
