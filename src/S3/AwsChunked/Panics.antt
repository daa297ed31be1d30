-- ===== src/S3/AwsChunked/Panics.antt =====
-- Which steps of the decoder cannot panic (src/s3/aws_chunked.rs).
use tiny_s3_proxy.Dict.{is_some}
use tiny_s3_proxy.S3.AwsChunked.Types.{
  AwsChunkedError, panic, SignedChunkAlgorithm, hmac_sha256, ecdsa_p256,
}
use tiny_s3_proxy.Auth.SigV4a.Crypto.{parse_streaming_der_signature_hex_padded}
use tiny_s3_proxy.S3.AwsChunked.Header.{
  validate_chunk_signature_shape, parse_chunk_size, parse_signature_part, parse_chunk_header,
  ParsedChunkHeader,
}
use tiny_s3_proxy.Auth.Crypto.{Crypto}
use tiny_s3_proxy.S3.AwsChunked.Inbound.{
  read_line, read_chunk_header_line, read_trailer_line, read_byte, expect_crlf, expect_eof,
  copy_loop, copy_chunk_payload, Inbound, check_header_line, check_trailer_line, batch, split_line,
  eof, failed, copy_buffer_bytes,
}
use tiny_s3_proxy.Text.{Bytes, codes, contains_byte, split_once, strip_prefix}
use tiny_s3_proxy.Prelude.{
  >>=-eq-ok, Bool, Bool-cases, Option, Option-cases, Result, Result-cases, [], arith, err, false,
  guard, inl, inr, length, min, none, ok, refl, some, suc, take, true, zero, ℕ, ◌++◌, ◌-◌, ◌>>=◌,
  ◌∷◌, ◌≡◌,
}

abbrev pub is_panic : AwsChunkedError → Bool
is_panic panic = true
is_panic _ = false

abbrev pub panics : {A : Type 0} → Result AwsChunkedError A → Bool
panics (err e) = is_panic e
panics (ok a) = false

pub panics->>= :
    {A B : Type 0} (m : Result AwsChunkedError A) (f : A → Result AwsChunkedError B)
    → panics m ≡ false
    → ((a : A) → m ≡ ok a → panics (f a) ≡ false)
    → panics (m >>= f) ≡ false
panics->>= (ok a) f h k = k a refl
panics->>= (err e) f h k = h

pub panics-guard :
    (test : Bool) (e : AwsChunkedError) → is_panic e ≡ false → panics (guard test e) ≡ false
panics-guard true e h = refl
panics-guard false e h = h

panics-read_line :
    (limit : ℕ) (too_large at_end no_newline : AwsChunkedError) (buf : Bytes) (i : Inbound)
    → is_panic too_large ≡ false
    → is_panic at_end ≡ false
    → is_panic no_newline ≡ false
    → panics (read_line limit too_large at_end no_newline buf i) ≡ false
unfolding read_line
panics-read_line limit too_large at_end no_newline buf eof h k l = ground arith
panics-read_line limit too_large at_end no_newline buf failed h k l = refl
panics-read_line limit too_large at_end no_newline buf (batch b bs i) h k l =
    elim (Option-cases (split_line (b ∷ bs))) [
      | inl e ↦
          ground (arith, panics-read_line limit too_large at_end no_newline (buf ++ b ∷ bs) i h k l)
      | inr ((line, rest), e) ↦ ground arith
    ]

pub panics-read_chunk_header_line : (i : Inbound) → panics (read_chunk_header_line i) ≡ false
unfolding read_chunk_header_line check_header_line
panics-read_chunk_header_line i =
    panics->>= _ check_header_line (panics-read_line _ _ _ _ [] i refl refl refl)
      (λ a h. ground arith)

pub panics-read_trailer_line :
    (name : Bytes) (i : Inbound) → panics (read_trailer_line name i) ≡ false
unfolding read_trailer_line check_trailer_line
panics-read_trailer_line name i =
    panics->>= _ (check_trailer_line name) (panics-read_line _ _ _ _ [] i refl refl refl)
      (λ a h. ground arith)

panics-read_byte : (i : Inbound) → panics (read_byte i) ≡ false
unfolding read_byte
panics-read_byte eof = refl
panics-read_byte failed = refl
panics-read_byte (batch b bs i) = refl

pub panics-expect_crlf : (i : Inbound) → panics (expect_crlf i) ≡ false
unfolding expect_crlf
panics-expect_crlf i =
    panics->>= (read_byte i) _ (panics-read_byte i)
      (λ (a, j) h. panics->>= (read_byte j) _ (panics-read_byte j) (λ (b, k) h'. ground arith))

pub panics-expect_eof : (i : Inbound) → panics (expect_eof i) ≡ false
unfolding expect_eof
panics-expect_eof eof = refl
panics-expect_eof failed = refl
panics-expect_eof (batch b bs i) = refl

panics-copy_loop :
    (write_all : Bytes → Bytes → Bool) (fuel remaining : ℕ) (written taken : Bytes) (i : Inbound)
    → panics (copy_loop write_all fuel remaining written taken i) ≡ false
unfolding copy_loop
panics-copy_loop write_all zero remaining written taken i = refl
panics-copy_loop write_all (suc fuel) zero written taken i = refl
panics-copy_loop write_all (suc fuel) (suc r) written taken eof = refl
panics-copy_loop write_all (suc fuel) (suc r) written taken failed = refl
panics-copy_loop write_all (suc fuel) (suc r) written taken (batch b bs i) =
    let got = take (min (suc r) copy_buffer_bytes) (b ∷ bs) in
    elim (Bool-cases (write_all (written ++ taken) got)) [
      | inl e ↦
          rw (e, copy_loop)
            (panics-copy_loop write_all fuel (suc r - length got) written (taken ++ got) _)
      | inr e ↦ rw (e, copy_loop)
    ]

pub panics-copy_chunk_payload :
    (write_all : Bytes → Bytes → Bool) (written : Bytes) (size : ℕ) (i : Inbound)
    → panics (copy_chunk_payload write_all written size i) ≡ false
unfolding copy_chunk_payload
panics-copy_chunk_payload write_all written size i =
    panics-copy_loop write_all size size written [] i

module _ (crypto : Crypto) where
  pub panics-validate_chunk_signature_shape :
      (sig : Bytes) (algorithm : SignedChunkAlgorithm)
      → panics (validate_chunk_signature_shape crypto sig algorithm) ≡ false
  unfolding validate_chunk_signature_shape
  panics-validate_chunk_signature_shape sig hmac_sha256 = ground arith
  panics-validate_chunk_signature_shape sig ecdsa_p256 =
      elim (Result-cases (parse_streaming_der_signature_hex_padded crypto sig)) [
        | inl (e, h) ↦ rw (h, validate_chunk_signature_shape)
        | inr (b, h) ↦ rw (h, validate_chunk_signature_shape)
      ]

  panics-parse_chunk_size : (s : Bytes) → panics (parse_chunk_size s) ≡ false
  unfolding parse_chunk_size
  panics-parse_chunk_size s = ground arith

  panics-parse_signature_part :
      (part : Bytes) (algorithm : SignedChunkAlgorithm)
      → panics (parse_signature_part crypto part algorithm) ≡ false
  unfolding parse_signature_part
  panics-parse_signature_part part algorithm =
      elim (Option-cases (strip_prefix part (codes "chunk-signature="))) [
        | inl e ↦ rw (e, parse_signature_part)
        | inr (sig, e) ↦
            rw (e, parse_signature_part)
              (panics->>= (validate_chunk_signature_shape crypto sig algorithm) _
                (panics-validate_chunk_signature_shape sig algorithm) (λ a h. refl))
      ]

  pub panics-parse_chunk_header :
      (line : Bytes) (algorithm : Option SignedChunkAlgorithm)
      → panics (parse_chunk_header crypto line algorithm) ≡ false
  unfolding parse_chunk_header
  panics-parse_chunk_header line none = elim (Bool-cases (contains_byte b';' line)) [
    | inl e ↦ rw (e, parse_chunk_header)
    | inr e ↦
        rw (e, parse_chunk_header)
          (panics->>= (parse_chunk_size line) _ (panics-parse_chunk_size line) (λ a h. refl))
  ]
  panics-parse_chunk_header line (some algorithm) = elim (Option-cases (split_once b';' line)) [
    | inl e ↦ rw (e, parse_chunk_header)
    | inr ((size, sig), e) ↦
        rw (e, parse_chunk_header)
          (panics->>= (parse_chunk_size size) _ (panics-parse_chunk_size size) (λ a h.
            panics->>= (parse_signature_part crypto sig algorithm) _
              (panics-parse_signature_part sig algorithm) (λ b h'. refl)))
  ]

  -- A chunk header of a mode with signatures has one.
  pub parse_chunk_header-signature :
      (line : Bytes) (algorithm : SignedChunkAlgorithm) (parsed : ParsedChunkHeader)
      → parse_chunk_header crypto line (some algorithm) ≡ ok parsed
      → is_some parsed.signature_hex ≡ true
  unfolding parse_chunk_header
  parse_chunk_header-signature line algorithm parsed h =
      elim (Option-cases (split_once b';' line)) [
        | inl e ↦ ground arith
        | inr ((size, sig), e) ↦
            let h' = rw (e, parse_chunk_header) at h in
            let (n, _, h1) = >>=-eq-ok (parse_chunk_size size) _ h' in
            let (s, _, h2) = >>=-eq-ok (parse_signature_part crypto sig algorithm) _ h1 in
            ground arith
      ]
