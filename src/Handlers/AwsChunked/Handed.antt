-- ===== src/Handlers/AwsChunked/Handed.antt =====
-- What the backend is handed (src/handlers/aws_chunked.rs).
use tiny_s3_proxy.Auth.Verified.{VerifiedRequest}
use tiny_s3_proxy.Text.Numbers.{hex_encode_lower, ℤ}
use tiny_s3_proxy.S3.Ops.{ParsedRequest}
use tiny_s3_proxy.Handlers.AwsChunked.Mode.{read_declared_decoded_length, decoder_mode_from_headers}
use tiny_s3_proxy.Auth.Crypto.{Crypto}
use tiny_s3_proxy.S3.Errors.{S3Error}
use tiny_s3_proxy.S3.AwsChunked.Types.{DecodedSummary, AwsChunkedError, DecoderMode}
use tiny_s3_proxy.Error.{ProxyError}
use tiny_s3_proxy.Http.{HttpCrates, HeaderMap}
use tiny_s3_proxy.Text.{Bytes}
use tiny_s3_proxy.S3.AwsChunked.Inbound.{Inbound}
use tiny_s3_proxy.Handlers.AwsChunked.Upload.{decoded_upload, UploadState, UploadSpool}
use tiny_s3_proxy.Handlers.AwsChunked.Uploaded.{decoded_upload-ok}
use tiny_s3_proxy.Handlers.AwsChunked.Handlers.{
  Outcome, refused, rejected, stored, send, send_decoded, PutObjectSpoolInput,
  handle_put_decode_aws_chunked, put_object_input, handle_upload_part_decode_aws_chunked,
  UploadPartSpoolInput, upload_part_input, is_part_number,
}
use tiny_s3_proxy.S3.AwsChunked.Decoder.TrailerCheck.{IsTrailerOf}
use tiny_s3_proxy.S3.AwsChunked.Decoder.Faithful.{decode_to_writer-IsFaithful}
use tiny_s3_proxy.S3.AwsChunked.Types.{trailer_info, DecoderMode}
use tiny_s3_proxy.Text.Numbers.{ℤ}
use mathlib.Core.Path.{subst, sym, ap, ◌∙◌}
use tiny_s3_proxy.Text.Numbers.{pos, negsuc}
use tiny_s3_proxy.Prelude.{
  ℕ, ◌≤◌, ◌≢◌, Bool-cases, ◌≡◌, inl, inr, refl, arith, some, none, ok, err, Option, Result,
  Result-cases, true, length, leb, some_injective, sym, ◌∙◌, ap,
}

-- The input that the backend was called with, if it was called.
abbrev pub sent : {Input Output : Type 0} → Outcome Input Output → Option Input
sent (refused _) = none
sent (rejected input _) = some input
sent (stored input _) = some input

module _ {Input Output : Type 0} (http : HttpCrates) (state : UploadState) (key request_id : Bytes)
    (backend : Input → Result ProxyError Output) (input_of : DecodedSummary → Input) where
  sent-send : (input : Input) → sent (send http state key request_id backend input) ≡ some input
  unfolding send
  sent-send input = elim (Result-cases (backend input)) [
    | inl (x, e) ↦ rw (e, send) refl
    | inr (output, e) ↦ rw (e, send) refl
  ]

  sent-send_decoded :
      (decoded : Option (Result S3Error (DecodedSummary × Bytes))) (outcome : Outcome Input Output)
      (input : Input)
      → send_decoded http state key request_id backend input_of decoded ≡ some outcome
      → sent outcome ≡ some input
      → (summary : DecodedSummary) × (bytes : Bytes) × (decoded ≡ some (ok (summary, bytes)))
        × (input ≡ input_of summary)
  unfolding send_decoded
  sent-send_decoded none outcome input h called = cc
  sent-send_decoded (some (err e)) outcome input h called = absurd (ground (arith, h, called))
  sent-send_decoded (some (ok (summary, bytes))) outcome input h called = (
    summary,
    bytes,
    refl,
    some_injective (sym called ∙ rw (sym (some_injective h)) (sent-send (input_of summary))),
  )

-- What the summary of a decoding says of the body and of the request.
record IsOfUpload (http : HttpCrates) (crypto : Crypto) (state : UploadState) (headers : HeaderMap)
    (request_id : Bytes) (body : Bytes) (summary : DecodedSummary) : Type 0 where
  pub length_declared :
      read_declared_decoded_length http headers request_id ≡ ok summary.decoded_len
  pub length_of_body : summary.decoded_len ≡ length body
  pub length_allowed : leb summary.decoded_len state.max_request_body_bytes ≡ true
  pub sha256_of_body : summary.sha256_hex ≡ hex_encode_lower (crypto.sha256 body)
  pub mode : DecoderMode
  pub mode_of_headers : decoder_mode_from_headers http headers request_id ≡ ok mode
  pub checksum_of_body : IsTrailerOf crypto (trailer_info mode) body summary.trailer

-- What a PutObject input says of the body that was decoded for it.
pub record IsOfBody (http : HttpCrates) (crypto : Crypto) (state : UploadState)
    (headers : HeaderMap) (request_id : Bytes) (body : Bytes) (input : PutObjectSpoolInput)
    : Type 0 where
  pub length_declared : read_declared_decoded_length http headers request_id ≡ ok input.len
  pub length_of_body : input.len ≡ length body
  pub length_allowed : leb input.len state.max_request_body_bytes ≡ true
  pub sha256_of_body : input.sha256_hex ≡ hex_encode_lower (crypto.sha256 body)
  pub mode : DecoderMode
  pub mode_of_headers : decoder_mode_from_headers http headers request_id ≡ ok mode
  pub checksum_of_body : IsTrailerOf crypto (trailer_info mode) body input.checksum

-- What an UploadPart input says of the body that was decoded for it.
pub record IsOfPart (http : HttpCrates) (crypto : Crypto) (state : UploadState)
    (headers : HeaderMap) (request_id : Bytes) (part_number : ℤ) (body : Bytes)
    (input : UploadPartSpoolInput) : Type 0 where
  pub number : ℕ
  pub number_given : part_number ≡ pos number
  pub number_positive : 1 ≤ number
  pub number_small : number ≤ 10000
  pub number_sent : input.part_number ≡ part_number
  pub length_declared : read_declared_decoded_length http headers request_id ≡ ok input.len
  pub length_of_body : input.len ≡ length body
  pub length_allowed : leb input.len state.max_request_body_bytes ≡ true
  pub sha256_of_body : input.sha256_hex ≡ hex_encode_lower (crypto.sha256 body)
  pub mode : DecoderMode
  pub mode_of_headers : decoder_mode_from_headers http headers request_id ≡ ok mode
  pub checksum_of_body : IsTrailerOf crypto (trailer_info mode) body input.checksum

is_part_number-pos :
    (part_number : ℤ)
    → is_part_number part_number ≡ true
    → (n : ℕ) × (part_number ≡ pos n) × (1 ≤ n) × (n ≤ 10000)
unfolding is_part_number
is_part_number-pos (pos n) h = (n, refl, ground (arith, h), ground (arith, h))
is_part_number-pos (negsuc n) h = absurd (ground (arith, h))

refused_ne_sent :
    {Input Output : Type 0} {e : S3Error} (outcome : Outcome Input Output) (input : Input)
    → ◌≡◌ {A = Option (Outcome Input Output)} (some (refused e)) (some outcome)
    → sent outcome ≢ some input
refused_ne_sent outcome input h called = absurd (ground (arith, h, called))

module _ (http : HttpCrates) (crypto : Crypto) (to_string : AwsChunkedError → Bytes)
    (spool : UploadSpool) (state : UploadState) (parsed : ParsedRequest) (headers : HeaderMap)
    (verified : Option VerifiedRequest) (body : Inbound) where
  summary-IsOfUpload :
      (summary : DecodedSummary) (bytes : Bytes)
      → decoded_upload crypto to_string spool parsed.request_id http state headers verified body
        ≡ some (ok (summary, bytes))
      → IsOfUpload http crypto state headers parsed.request_id bytes summary
  summary-IsOfUpload summary bytes decoded =
      let (plan, planned, decodes) =
        decoded_upload-ok http state headers verified parsed.request_id crypto to_string spool body
          summary bytes decoded in
      let faithful =
        decode_to_writer-IsFaithful crypto spool.write_all body plan.declared_len plan.mode
          plan.signature_policy summary bytes decodes in
      let len : plan.declared_len ≡ summary.decoded_len =
        sym (faithful.length_reported ∙ faithful.length_declared) in
      record {
        length_declared = planned.declared ∙ ap ok len;
        length_of_body = faithful.length_reported;
        length_allowed = subst (λ n. leb n state.max_request_body_bytes ≡ true) len planned.fits;
        sha256_of_body = faithful.hex_reported;
        mode = plan.mode;
        mode_of_headers = planned.has_mode;
        checksum_of_body = faithful.trailer_reported;
      }

module _ {Output : Type 0} (http : HttpCrates) (crypto : Crypto)
    (to_string : AwsChunkedError → Bytes) (spool : UploadSpool) (state : UploadState)
    (parsed : ParsedRequest) (key : Bytes) (headers : HeaderMap) (verified : Option VerifiedRequest)
    (body : Inbound) where
  -- The backend is called for a PutObject with a decoded body only when there is a body whose
  -- length is the one the request declares and within the configured limit; the input has that
  -- length, the hexadecimal SHA-256 of exactly that body, and, in the trailer modes that the
  -- request's headers name, a checksum of the trailer's name and algorithm that the body has, else
  -- none.
  pub put_input-IsOfBody :
      (backend : PutObjectSpoolInput → Result ProxyError Output)
      (outcome : Outcome PutObjectSpoolInput Output) (input : PutObjectSpoolInput)
      → handle_put_decode_aws_chunked http crypto to_string spool state parsed key headers verified
          body backend
        ≡ some outcome
      → sent outcome ≡ some input
      → (bytes : Bytes) × IsOfBody http crypto state headers parsed.request_id bytes input
  unfolding handle_put_decode_aws_chunked put_object_input
  put_input-IsOfBody backend outcome input h called =
      let (summary, bytes, decoded, same) =
        sent-send_decoded http state key parsed.request_id backend _ _ outcome input h called in
      let d =
        summary-IsOfUpload http crypto to_string spool state parsed headers verified body summary
          bytes decoded in
      (
        bytes,
        subst (IsOfBody http crypto state headers parsed.request_id bytes) (sym same) (record {
          length_declared = d.length_declared;
          length_of_body = d.length_of_body;
          length_allowed = d.length_allowed;
          sha256_of_body = d.sha256_of_body;
          mode = d.mode;
          mode_of_headers = d.mode_of_headers;
          checksum_of_body = d.checksum_of_body;
        }),
      )

  -- The backend is called for an UploadPart with a decoded body only for a part number from 1 to
  -- 10000, and only when there is a body whose length is the one the request declares and within the
  -- configured limit; the input has that part number, that length, the hexadecimal SHA-256 of
  -- exactly that body, and the checksum of the body in the trailer modes, else none.
  pub part_input-IsOfPart :
      (part_number : ℤ) (upload_id : Bytes)
      (backend : UploadPartSpoolInput → Result ProxyError Output)
      (outcome : Outcome UploadPartSpoolInput Output) (input : UploadPartSpoolInput)
      → handle_upload_part_decode_aws_chunked http crypto to_string spool state parsed key headers
          verified body part_number upload_id backend
        ≡ some outcome
      → sent outcome ≡ some input
      → (bytes : Bytes) × IsOfPart http crypto state headers parsed.request_id part_number bytes
          input
  unfolding handle_upload_part_decode_aws_chunked upload_part_input
  part_input-IsOfPart part_number upload_id backend outcome input h called =
      elim (Bool-cases (is_part_number part_number)) [
        | inr invalid ↦ absurd (
            refused_ne_sent outcome input (rw (invalid, handle_upload_part_decode_aws_chunked) at h)
              called)
        | inl valid ↦
            let h1 = rw (valid, handle_upload_part_decode_aws_chunked) at h in
            let (summary, bytes, decoded, same) =
              sent-send_decoded http state key parsed.request_id backend
                (upload_part_input state parsed key upload_id part_number spool.path) _ outcome
                input h1 called in
            let d =
              summary-IsOfUpload http crypto to_string spool state parsed headers verified body
                summary bytes decoded in
            let (n, is, positive, small) = is_part_number-pos part_number valid in
            (
              bytes,
              subst (IsOfPart http crypto state headers parsed.request_id part_number bytes)
                  (sym same)
                  (record {
                    number = n;
                    number_given = is;
                    number_positive = positive;
                    number_small = small;
                    number_sent = refl;
                    length_declared = d.length_declared;
                    length_of_body = d.length_of_body;
                    length_allowed = d.length_allowed;
                    sha256_of_body = d.sha256_of_body;
                    mode = d.mode;
                    mode_of_headers = d.mode_of_headers;
                    checksum_of_body = d.checksum_of_body;
                  }),
            )
      ]
