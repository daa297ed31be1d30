-- ===== src/Handlers/AwsChunked/Answered.antt =====
-- How the decoding of an upload ends (src/handlers/aws_chunked.rs).
use tiny_s3_proxy.S3.AwsChunked.Decoder.NoPanic.{decode_to_writer-ne-panic}
use tiny_s3_proxy.S3.AwsChunked.Decoder.Progress.{decode_to_writer_total}
use tiny_s3_proxy.S3.AwsChunked.Decoder.{decode_to_writer, with_mode_and_signature_policy}
use tiny_s3_proxy.Auth.Verified.{VerifiedRequest}
use tiny_s3_proxy.Auth.Crypto.{Crypto}
use tiny_s3_proxy.Http.{HttpCrates}
use tiny_s3_proxy.Handlers.AwsChunked.{map_decode_error, HeaderMap}
use tiny_s3_proxy.S3.AwsChunked.Inbound.{Inbound}
use tiny_s3_proxy.S3.AwsChunked.Types.{
  malformed_frame, invalid_chunk_size, decoded_length_mismatch, decoded_length_exceeded, truncated,
  trailing_data, chunk_header_too_large, inbound_io, spool_io, invalid_trailer, missing_trailer,
  invalid_trailer_checksum, trailer_checksum_mismatch, invalid_trailer_signature,
  chunk_signature_mismatch, trailer_signature_mismatch, panic, AwsChunkedError, DecodedSummary,
}
use tiny_s3_proxy.Handlers.AwsChunked.Upload.{
  decode_into_spool, decoded_upload, decode_plan, spooled, flush_spool, DecodePlan, UploadSpool,
  UploadState,
}
use tiny_s3_proxy.Handlers.AwsChunked.Refused.{ErrorsAre, IsPlainRefusal, decode_plan-ErrorsAre}
use tiny_s3_proxy.S3.Errors.{
  S3Error, internal_error, incomplete_body, bad_request, invalid_digest, bad_digest,
  signature_does_not_match,
}
use tiny_s3_proxy.S3.Errors as Errors
use tiny_s3_proxy.Text.{codes, Bytes}
use mathlib.Core.Path.{ap, ◌∙◌, subst}
use tiny_s3_proxy.Prelude.{
  ◌++◌, ℕ, ◌≡◌, ◌⊎◌, inl, inr, refl, arith, some, ok, err, Option, Result, Option-cases,
  Result-cases,
}

abbrev pub IsSignatureMismatch : AwsChunkedError → Type 0
IsSignatureMismatch e =
    ((i : ℕ) × (e ≡ chunk_signature_mismatch i)) ⊎ (e ≡ trailer_signature_mismatch)

-- The refusal of a request for an error of the decoder.
abbrev IsRefusalOf : (request_id : Bytes) → AwsChunkedError → S3Error → Type 0
IsRefusalOf request_id e x =
    (x.request_id ≡ request_id)
    × (((x.http_status ≡ 400) ⊎ (x.http_status ≡ 500))
        ⊎ ((x.http_status ≡ 403) × IsSignatureMismatch e))

module _ (to_string : AwsChunkedError → Bytes) (request_id : Bytes) where
  map_decode_error-cases :
      (e : AwsChunkedError)
      → (e ≡ panic)
        ⊎ ((x : S3Error) × (map_decode_error to_string e request_id ≡ some x)
            × IsRefusalOf request_id e x)
  unfolding map_decode_error internal_error incomplete_body bad_request invalid_digest bad_digest
      signature_does_not_match Errors.invalid_chunk_size
  map_decode_error-cases panic = inl refl
  map_decode_error-cases (malformed_frame _) = inr (_, refl, (refl, inl (inl refl)))
  map_decode_error-cases (invalid_chunk_size _ _ _) = inr (_, refl, (refl, inl (inl refl)))
  map_decode_error-cases (decoded_length_mismatch _ _) = inr (_, refl, (refl, inl (inl refl)))
  map_decode_error-cases (decoded_length_exceeded _ _) = inr (_, refl, (refl, inl (inl refl)))
  map_decode_error-cases truncated = inr (_, refl, (refl, inl (inl refl)))
  map_decode_error-cases trailing_data = inr (_, refl, (refl, inl (inl refl)))
  map_decode_error-cases chunk_header_too_large = inr (_, refl, (refl, inl (inl refl)))
  map_decode_error-cases inbound_io = inr (_, refl, (refl, inl (inl refl)))
  map_decode_error-cases spool_io = inr (_, refl, (refl, inl (inr refl)))
  map_decode_error-cases invalid_trailer = inr (_, refl, (refl, inl (inl refl)))
  map_decode_error-cases (missing_trailer _) = inr (_, refl, (refl, inl (inl refl)))
  map_decode_error-cases invalid_trailer_checksum = inr (_, refl, (refl, inl (inl refl)))
  map_decode_error-cases (trailer_checksum_mismatch _) = inr (_, refl, (refl, inl (inl refl)))
  map_decode_error-cases invalid_trailer_signature = inr (_, refl, (refl, inl (inl refl)))
  map_decode_error-cases (chunk_signature_mismatch i) =
      inr (_, refl, (refl, inr (refl, inl (i, refl))))
  map_decode_error-cases trailer_signature_mismatch = inr (_, refl, (refl, inr (refl, inr refl)))

-- An error of a decoding that the proxy answers with.
abbrev pub IsRefusal :
    (http : HttpCrates) (crypto : Crypto) (spool : UploadSpool) (state : UploadState)
    (request_id : Bytes) (headers : HeaderMap) (verified : Option VerifiedRequest) (body : Inbound)
    → S3Error
    → Type 0
IsRefusal http crypto spool state request_id headers verified body x =
    (x.request_id ≡ request_id)
    × (((x.http_status ≡ 400) ⊎ (x.http_status ≡ 500))
        ⊎ ((x.http_status ≡ 403)
            × (plan : DecodePlan) × (e : AwsChunkedError) × (decode_plan http state headers verified
                  request_id
                ≡ ok plan)
            × (decode_to_writer crypto spool.write_all (
                  with_mode_and_signature_policy body plan.declared_len plan.mode
                    plan.signature_policy)
                ≡ some (err e))
            × IsSignatureMismatch e))

module _ (http : HttpCrates) (crypto : Crypto) (to_string : AwsChunkedError → Bytes)
    (spool : UploadSpool) (state : UploadState) (request_id : Bytes) (headers : HeaderMap)
    (verified : Option VerifiedRequest) (body : Inbound) where
  abbrev pub Answers : Option (Result S3Error (DecodedSummary × Bytes)) → Type 0
  Answers decoded =
      (r : Result S3Error (DecodedSummary × Bytes)) × (decoded ≡ some r)
      × ErrorsAre (IsRefusal http crypto spool state request_id headers verified body) r

  decode_into_spool-Answers :
      (plan : DecodePlan)
      → decode_plan http state headers verified request_id ≡ ok plan
      → Answers (decode_into_spool crypto to_string spool request_id body plan)
  unfolding decode_into_spool spooled flush_spool internal_error
  decode_into_spool-Answers plan planned = elim (Option-cases spool.create_error) [
    | inr (x, e) ↦ (
      err (internal_error (codes "failed to create aws-chunked spool file: " ++ x) request_id),
      ground (arith, e),
      (refl, inl (inr refl)),
    )
    | inl created ↦
        let (r, ends) =
          decode_to_writer_total crypto spool.write_all (
            with_mode_and_signature_policy body plan.declared_len plan.mode
              plan.signature_policy) in
        elim (Result-cases r) [
          | inr (decoded, e) ↦ elim (Option-cases spool.flush_error) [
            | inl flushed ↦ (ok decoded, ground (arith, created, ends, e, flushed), tt)
            | inr (x, f) ↦ (
              err (
                  internal_error (codes "failed to flush aws-chunked spool file: " ++ x)
                    request_id),
              ground (arith, created, ends, e, f),
              (refl, inl (inr refl)),
            )
          ]
          | inl (x, e) ↦ elim (map_decode_error-cases to_string request_id x) [
            | inl panics ↦ absurd (
                decode_to_writer-ne-panic crypto spool.write_all body plan.declared_len plan.mode
                  plan.signature_policy (ground (arith, ends, e, panics)))
            | inr (answer, maps, (id, inl status)) ↦
                (err answer, ground (arith, created, ends, e, maps), (id, inl status))
            | inr (answer, maps, (id, inr (status, mismatch))) ↦ (
              err answer,
              ground (arith, created, ends, e, maps),
              (id, inr (status, plan, x, planned, ends ∙ ap some e, mismatch)),
            )
          ]
        ]
  ]

  IsPlainRefusal-IsRefusal :
      (x : S3Error)
      → IsPlainRefusal request_id x
      → IsRefusal http crypto spool state request_id headers verified body x
  IsPlainRefusal-IsRefusal x h = (h.0, inl h.1)

  -- The decoding of an upload always ends, whatever the headers, the body, the spool file and the
  -- cryptographic crates do, with a decoded body or with an error to answer with, and never with a
  -- panic. The error has the id of the request, and the status 400, 500, or 403; the last only where
  -- the decoder has found a chunk signature or a trailer signature that does not match.
  pub decoded_upload-Answers :
      Answers (decoded_upload crypto to_string spool request_id http state headers verified body)
  unfolding decoded_upload
  decoded_upload-Answers =
      elim (Result-cases (decode_plan http state headers verified request_id)) [
        | inl (x, e) ↦ (
          err x,
          ground (arith, e),
          IsPlainRefusal-IsRefusal x (
              subst (ErrorsAre (IsPlainRefusal request_id)) e
                (decode_plan-ErrorsAre request_id http state headers verified)),
        )
        | inr (plan, e) ↦
            let (r, ends, answers) = decode_into_spool-Answers plan e in
            (r, ground (arith, e, ends), answers)
      ]
