-- ===== src/Handlers/AwsChunked/Refused.antt =====
-- What an upload is refused with before the backend is called (src/handlers/aws_chunked.rs).
use tiny_s3_proxy.Handlers.AwsChunked.Mode.{read_declared_decoded_length}
use tiny_s3_proxy.Http.{HttpCrates}
use tiny_s3_proxy.Handlers.AwsChunked.{
  single_value, HeaderMap, get_all, invalid_argument, parse_u64,
}
use tiny_s3_proxy.S3.Errors.{S3Error}
use tiny_s3_proxy.S3.Errors.{
  invalid_argument, bad_request, entity_too_large, internal_error, S3Error,
}
use tiny_s3_proxy.S3.Checksum.{ChecksumHeader, from_header_name}
use tiny_s3_proxy.Auth.Verified.{VerifiedRequest, hmac_context, ecdsa_context}
use tiny_s3_proxy.S3.AwsChunked.Types.{
  DecoderMode, SignedChunkAlgorithm, hmac_sha256, ecdsa_p256, non_trailer, signed_trailer,
  unsigned_trailer,
}
use tiny_s3_proxy.Handlers.AwsChunked.Mode.{
  read_declared_decoded_length, read_declared_trailer, decoder_mode_from_headers, mode_of_sentinel,
  trailer_mode, policy_of_context, strict_policy, reject_if_oversized, signature_policy_for_decode,
}
use tiny_s3_proxy.Handlers.AwsChunked.Upload.{UploadState, check_size, decode_plan}
use mathlib.Core.Path.{subst}
use tiny_s3_proxy.Prelude.{
  some_injective, true, false, if◌then◌else◌, Bool-cases, List-cases, Option, Option-cases, Result,
  err, inl, inr, none, ok, refl, some, ℕ, ◌>>=◌, ◌≡◌, ◌⊎◌, ltb, is_empty, Bool, arith, max,
}
use tiny_s3_proxy.Text.{Bytes, codes, bytes_eq, trim, uppercase}

-- Every error has a property.
abbrev pub ErrorsAre : {A : Type 0} → (S3Error → Type 0) → Result S3Error A → Type 0
ErrorsAre P (err e) = P e
ErrorsAre P (ok value) = Unit

ErrorsAre->>= :
    {A B : Type 0} (P : S3Error → Type 0) (first : Result S3Error A) (next : A → Result S3Error B)
    → ErrorsAre P first
    → ((value : A) → ErrorsAre P (next value))
    → ErrorsAre P (first >>= next)
ErrorsAre->>= P (err e) next h k = h
ErrorsAre->>= P (ok value) next h k = k value

single_value-ErrorsAre :
    (P : S3Error → Type 0) (http : HttpCrates) (name : Bytes) (headers : HeaderMap)
    (missing several not_ascii : S3Error)
    → P missing
    → P several
    → P not_ascii
    → ErrorsAre P (single_value http name headers missing several not_ascii)
unfolding single_value
single_value-ErrorsAre P http name headers missing several not_ascii m s n =
    elim (List-cases (get_all name headers)) [
      | inl e ↦ rw (e, single_value) m
      | inr (raw, rest, e) ↦ elim (List-cases rest) [
        | inl last ↦ elim (Option-cases (http.to_str raw)) [
          | inl odd ↦ rw (e, last, single_value, odd) n
          | inr (text, reads) ↦ rw (e, last, single_value, reads) tt
        ]
        | inr (other, more, f) ↦ rw (e, f, single_value) s
      ]
    ]

-- A refusal of the request itself or of the proxy: it has the request's id, and the status 400 or 500.
abbrev pub IsPlainRefusal : (request_id : Bytes) → S3Error → Type 0
IsPlainRefusal request_id e =
    (e.request_id ≡ request_id) × ((e.http_status ≡ 400) ⊎ (e.http_status ≡ 500))

module _ (request_id : Bytes) where
  argument_plain : (m : Bytes) → IsPlainRefusal request_id (invalid_argument m request_id)
  unfolding invalid_argument
  argument_plain m = (refl, inl refl)

  request_plain : (m : Bytes) → IsPlainRefusal request_id (bad_request m request_id)
  unfolding bad_request
  request_plain m = (refl, inl refl)

  size_plain : (m : Bytes) → IsPlainRefusal request_id (entity_too_large m request_id)
  unfolding entity_too_large
  size_plain m = (refl, inl refl)

  internal_plain : (m : Bytes) → IsPlainRefusal request_id (internal_error m request_id)
  unfolding internal_error
  internal_plain m = (refl, inr refl)

  module _ (http : HttpCrates) (headers : HeaderMap) where
    read_declared_decoded_length-ErrorsAre :
        ErrorsAre (IsPlainRefusal request_id) (read_declared_decoded_length http headers request_id)
    unfolding read_declared_decoded_length
    read_declared_decoded_length-ErrorsAre =
        ErrorsAre->>= (IsPlainRefusal request_id) _ _
          (single_value-ErrorsAre (IsPlainRefusal request_id) http _ headers _ _ _
            (argument_plain _) (argument_plain _) (argument_plain _))
          (λ s. elim (Option-cases (parse_u64 s)) [
            | inl e ↦ rw (e) (argument_plain _)
            | inr (n, e) ↦ rw (e) tt
          ])

    read_declared_trailer-ErrorsAre :
        ErrorsAre (IsPlainRefusal request_id) (read_declared_trailer http headers request_id)
    unfolding read_declared_trailer
    read_declared_trailer-ErrorsAre =
        ErrorsAre->>= (IsPlainRefusal request_id) _ _
          (single_value-ErrorsAre (IsPlainRefusal request_id) http _ headers _ _ _ (request_plain _)
            (request_plain _) (request_plain _))
          (λ s. elim (Option-cases (from_header_name (trim s))) [
            | inl e ↦ rw (e) (request_plain _)
            | inr (n, e) ↦ rw (e) tt
          ])

    if-ErrorsAre :
        {A : Type 0} (b : Bool) (yes_result no_result : Result S3Error A)
        → ErrorsAre (IsPlainRefusal request_id) yes_result
        → ErrorsAre (IsPlainRefusal request_id) no_result
        → ErrorsAre (IsPlainRefusal request_id) (if b then yes_result else no_result)
    if-ErrorsAre true y n hy hn = hy
    if-ErrorsAre false y n hy hn = hn

    trailer_mode-ErrorsAre :
        (sentinel upper : Bytes) (header : ChecksumHeader)
        → ErrorsAre
            (IsPlainRefusal request_id)
            (trailer_mode http headers request_id sentinel upper header)
    unfolding trailer_mode
    trailer_mode-ErrorsAre sentinel upper header =
        if-ErrorsAre (bytes_eq upper (codes "STREAMING-UNSIGNED-PAYLOAD-TRAILER")) _ _ tt (
          if-ErrorsAre (bytes_eq upper (codes "STREAMING-AWS4-HMAC-SHA256-PAYLOAD-TRAILER")) _ _ tt
            (if-ErrorsAre
              (bytes_eq upper (codes "STREAMING-AWS4-ECDSA-P256-SHA256-PAYLOAD-TRAILER")) _ _ tt
              (request_plain _)))

    decoder_mode_from_headers-ErrorsAre :
        ErrorsAre (IsPlainRefusal request_id) (decoder_mode_from_headers http headers request_id)
    unfolding decoder_mode_from_headers mode_of_sentinel
    decoder_mode_from_headers-ErrorsAre =
        ErrorsAre->>= (IsPlainRefusal request_id) _ _
          (single_value-ErrorsAre (IsPlainRefusal request_id) http _ headers _ _ _ (request_plain _)
            (request_plain _) (request_plain _))
          (λ raw. if-ErrorsAre (is_empty (trim raw)) _ _ (request_plain _) (
            if-ErrorsAre
              (bytes_eq (uppercase (trim raw)) (codes "STREAMING-AWS4-HMAC-SHA256-PAYLOAD")) _ _ tt
              (if-ErrorsAre
                (bytes_eq (uppercase (trim raw)) (codes "STREAMING-AWS4-ECDSA-P256-SHA256-PAYLOAD"))
                _ _ tt
                (ErrorsAre->>= (IsPlainRefusal request_id) _ _ read_declared_trailer-ErrorsAre
                  (λ header. trailer_mode-ErrorsAre (trim raw) (uppercase (trim raw)) header)))))

  policy_of_context-ErrorsAre :
      (a : SignedChunkAlgorithm) (v : VerifiedRequest)
      → ErrorsAre (IsPlainRefusal request_id) (policy_of_context a v request_id)
  unfolding policy_of_context
  policy_of_context-ErrorsAre hmac_sha256 v = elim (Option-cases (hmac_context v)) [
    | inl e ↦ rw (e, policy_of_context) (internal_plain _)
    | inr (ctx, e) ↦ rw (e, policy_of_context) tt
  ]
  policy_of_context-ErrorsAre ecdsa_p256 v = elim (Option-cases (ecdsa_context v)) [
    | inl e ↦ rw (e, policy_of_context) (internal_plain _)
    | inr (ctx, e) ↦ rw (e, policy_of_context) tt
  ]

  strict_policy-ErrorsAre :
      (mode : DecoderMode) (verified : Option VerifiedRequest)
      → ErrorsAre (IsPlainRefusal request_id) (strict_policy mode verified request_id)
  unfolding strict_policy
  strict_policy-ErrorsAre mode none = internal_plain _
  strict_policy-ErrorsAre (non_trailer a) (some v) = policy_of_context-ErrorsAre a v
  strict_policy-ErrorsAre (signed_trailer _ _ a) (some v) = policy_of_context-ErrorsAre a v
  strict_policy-ErrorsAre (unsigned_trailer _ _) (some v) = tt

  reject_if_oversized_plain :
      (max declared : ℕ) (e : S3Error)
      → reject_if_oversized max declared request_id ≡ some e
      → IsPlainRefusal request_id e
  unfolding reject_if_oversized
  reject_if_oversized_plain max declared e h = elim (Bool-cases (ltb max declared)) [
    | inl over ↦
        subst (IsPlainRefusal request_id) (some_injective (rw (over, reject_if_oversized) at h))
          (size_plain _)
    | inr within ↦ absurd (ground (arith, within, h))
  ]

  check_size-ErrorsAre :
      (state : UploadState) (n : ℕ)
      → ErrorsAre (IsPlainRefusal request_id) (check_size state n request_id)
  unfolding check_size
  check_size-ErrorsAre state n =
      elim (Option-cases (reject_if_oversized state.max_request_body_bytes n request_id)) [
        | inl e ↦ rw (e, check_size) tt
        | inr (x, e) ↦
            rw (e, check_size) (reject_if_oversized_plain state.max_request_body_bytes n x e)
      ]

  pub decode_plan-ErrorsAre :
      (http : HttpCrates) (state : UploadState) (headers : HeaderMap)
      (verified : Option VerifiedRequest)
      → ErrorsAre (IsPlainRefusal request_id) (decode_plan http state headers verified request_id)
  unfolding decode_plan signature_policy_for_decode
  decode_plan-ErrorsAre http state headers verified =
      ErrorsAre->>= (IsPlainRefusal request_id) _ _
        (read_declared_decoded_length-ErrorsAre http headers)
        (λ n. ErrorsAre->>= (IsPlainRefusal request_id) _ _ (check_size-ErrorsAre state n) (λ m.
          ErrorsAre->>= (IsPlainRefusal request_id) _ _
            (decoder_mode_from_headers-ErrorsAre http headers)
            (λ mode.
              ErrorsAre->>= (IsPlainRefusal request_id) _ _
                (if-ErrorsAre http headers state.strict_sigv4 _ _
                  (strict_policy-ErrorsAre mode verified) tt)
                (λ policy. tt))))
