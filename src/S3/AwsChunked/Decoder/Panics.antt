-- ===== src/S3/AwsChunked/Decoder/Panics.antt =====
-- The verification of signatures and trailers cannot panic (src/s3/aws_chunked.rs).
use tiny_s3_proxy.S3.AwsChunked.Inbound.{read_trailer_line}
use tiny_s3_proxy.S3.AwsChunked.Header.{validate_chunk_signature_shape}
use tiny_s3_proxy.S3.AwsChunked.Header.{validate_chunk_signature_shape}
use tiny_s3_proxy.S3.AwsChunked.Inbound.{read_trailer_line}
use tiny_s3_proxy.S3.AwsChunked.Trailer.{
  validate_trailer, read_and_validate_trailer, map_err, validate_trailer_signature,
  read_and_validate_trailer_signature, as_trailer_shape_error, as_trailer_signature_error,
  parse_trailer_line,
}
use tiny_s3_proxy.S3.AwsChunked.Decoder.{
  with_error, verify_chunk, verify_trailer_signature, check_signature, chunk_error, trailer_error,
  ChunkSignaturePolicy, Inbound,
}
use tiny_s3_proxy.Auth.Crypto.{Crypto}
use tiny_s3_proxy.S3.AwsChunked.Panics.{
  is_panic, panics, panics->>=, panics-read_trailer_line, panics-validate_chunk_signature_shape,
}
use tiny_s3_proxy.Dict.{is_some}
use tiny_s3_proxy.Auth.SigV4.Streaming.{StreamingError}
use tiny_s3_proxy.Prelude.{
  Bool, Bool-cases, Option, Result, arith, err, false, inl, inr, none, ok, refl, some, true, ℕ, ◌≡◌,
}
use tiny_s3_proxy.Text.{Bytes, codes, eq_ignore_ascii_case}
use tiny_s3_proxy.Auth.SigV4.Streaming
use tiny_s3_proxy.Auth.SigV4a.Streaming as EcdsaStreaming
use tiny_s3_proxy.S3.Checksum.{ChecksumAlgorithm}
use tiny_s3_proxy.S3.AwsChunked.Types.{
  shape_only, verify_hmac, verify_ecdsa, AwsChunkedError, SignedChunkAlgorithm,
}

panics-with_error :
    {A : Type 0} (f : StreamingError → AwsChunkedError) (r : Result StreamingError A)
    → ((e : StreamingError) → r ≡ err e → is_panic (f e) ≡ false)
    → panics (with_error f r) ≡ false
panics-with_error f (ok a) h = refl
panics-with_error f (err e) h = h e refl

module _ (crypto : Crypto) where
  panics-verify_chunk :
      (policy : ChunkSignaturePolicy) (sha supplied : Bytes) (index : ℕ)
      → panics (verify_chunk crypto policy sha supplied index) ≡ false
  unfolding verify_chunk chunk_error Streaming.verify_payload_chunk
      EcdsaStreaming.verify_payload_chunk
  panics-verify_chunk shape_only sha supplied index = refl
  panics-verify_chunk (verify_hmac ctx) sha supplied index =
      panics->>=
        (with_error (chunk_error index) (Streaming.verify_payload_chunk crypto ctx sha supplied)) _
        (panics-with_error (chunk_error index)
          (Streaming.verify_payload_chunk crypto ctx sha supplied) (λ e h. ground arith))
        (λ a h. refl)
  panics-verify_chunk (verify_ecdsa ctx) sha supplied index =
      panics->>=
        (with_error (chunk_error index)
          (EcdsaStreaming.verify_payload_chunk crypto ctx sha supplied))
        _
        (panics-with_error (chunk_error index)
          (EcdsaStreaming.verify_payload_chunk crypto ctx sha supplied) (λ e h. ground arith))
        (λ a h. refl)

  pub panics-verify_trailer_signature :
      (policy : ChunkSignaturePolicy) (canonical sig : Bytes)
      → panics (verify_trailer_signature crypto policy canonical sig) ≡ false
  unfolding verify_trailer_signature trailer_error Streaming.verify_trailer
      EcdsaStreaming.verify_trailer
  panics-verify_trailer_signature shape_only canonical sig = refl
  panics-verify_trailer_signature (verify_hmac ctx) canonical sig =
      panics-with_error trailer_error (Streaming.verify_trailer crypto ctx canonical sig)
        (λ e h. ground arith)
  panics-verify_trailer_signature (verify_ecdsa ctx) canonical sig =
      panics-with_error trailer_error (EcdsaStreaming.verify_trailer crypto ctx canonical sig)
        (λ e h. ground arith)

  pub panics-check_signature :
      (expects : Bool) (policy : ChunkSignaturePolicy) (sha : Bytes) (supplied : Option Bytes)
      (index : ℕ)
      → (expects ≡ true → is_some supplied ≡ true)
      → panics (check_signature crypto expects policy sha supplied index) ≡ false
  unfolding check_signature
  panics-check_signature false policy sha supplied index h = refl
  panics-check_signature true policy sha none index h = absurd (cc (h refl))
  panics-check_signature true policy sha (some sig) index h =
      panics-verify_chunk policy sha sig index

  panics-validate_trailer :
      (name : Bytes) (algorithm : ChecksumAlgorithm) (parsed : Option (Bytes × Bytes))
      → panics (validate_trailer crypto name algorithm parsed) ≡ false
  unfolding validate_trailer
  panics-validate_trailer name algorithm none = refl
  panics-validate_trailer name algorithm (some (n, v)) = ground arith

  pub panics-read_and_validate_trailer :
      (name : Bytes) (algorithm : ChecksumAlgorithm) (i : Inbound)
      → panics (read_and_validate_trailer crypto name algorithm i) ≡ false
  unfolding read_and_validate_trailer
  panics-read_and_validate_trailer name algorithm i =
      panics->>= (read_trailer_line name i) _ (panics-read_trailer_line name i) (λ (line, j) h.
        panics->>= (validate_trailer crypto name algorithm (parse_trailer_line line)) _
          (panics-validate_trailer name algorithm (parse_trailer_line line)) (λ a h'. refl))

  panics-map_err :
      {A : Type 0} (f : AwsChunkedError → AwsChunkedError) (r : Result AwsChunkedError A)
      → panics r ≡ false
      → ((e : AwsChunkedError) → is_panic e ≡ false → is_panic (f e) ≡ false)
      → panics (map_err f r) ≡ false
  panics-map_err f (ok a) h k = refl
  panics-map_err f (err e) h k = k e h

  panics-validate_trailer_signature :
      (algorithm : SignedChunkAlgorithm) (parsed : Option (Bytes × Bytes))
      → panics (validate_trailer_signature crypto algorithm parsed) ≡ false
  unfolding validate_trailer_signature as_trailer_shape_error
  panics-validate_trailer_signature algorithm none = refl
  panics-validate_trailer_signature algorithm (some (name, sig)) =
      let shape =
        panics-map_err as_trailer_shape_error (validate_chunk_signature_shape crypto sig algorithm)
          (panics-validate_chunk_signature_shape crypto sig algorithm) (λ e h. ground arith) in
      elim (Bool-cases (eq_ignore_ascii_case name (codes "x-amz-trailer-signature"))) [
        | inl e ↦
            rw (e, validate_trailer_signature) (panics->>= _ (λ _. ok sig) shape (λ a h. refl))
        | inr e ↦ rw (e, validate_trailer_signature)
      ]

  pub panics-read_and_validate_trailer_signature :
      (algorithm : SignedChunkAlgorithm) (i : Inbound)
      → panics (read_and_validate_trailer_signature crypto algorithm i) ≡ false
  unfolding read_and_validate_trailer_signature as_trailer_signature_error
  panics-read_and_validate_trailer_signature algorithm i =
      panics->>= _ _
        (panics-map_err as_trailer_signature_error
          (read_trailer_line (codes "x-amz-trailer-signature") i)
          (panics-read_trailer_line (codes "x-amz-trailer-signature") i) (λ e h. ground arith))
        (λ (line, j) h.
          panics->>= (validate_trailer_signature crypto algorithm (parse_trailer_line line)) _
            (panics-validate_trailer_signature algorithm (parse_trailer_line line)) (λ a h'. refl))
