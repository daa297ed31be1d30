-- ===== src/Auth/SigV4a/Accepts.antt =====
-- Which chunk signatures of ECDSA uploads are accepted (src/auth/sigv4a/streaming.rs,
-- src/auth/sigv4a/crypto.rs).
use tiny_s3_proxy.Auth.SigV4a.Crypto.{
  split_star, parse_der_signature_hex, parse_streaming_der_signature_hex_padded,
  verify_sigv4a_der_signature, trim_end_stars,
}
use tiny_s3_proxy.Auth.SigV4a.Streaming.{
  StreamingSigV4aContext, payload_string_to_sign, verify_payload_chunk,
}
use tiny_s3_proxy.Text.Numbers.{hex_encode_lower, hex_decode_lower}
use tiny_s3_proxy.Text.Numbers.Laws.{hex_encode_lower-hex_decode_lower}
use mathlib.Core.List.{append-nil}
use tiny_s3_proxy.Auth.SigV4a.Crypto.{max_sigv4a_der_signature_hex_len}
use tiny_s3_proxy.Prelude.{
  ltb, length, ◌≡◌, ok, refl, arith, all, true, inl, inr, Bool-cases, Option-cases, Result-cases,
  ◌++◌, ◌∷◌, ◌==◌, is_empty, sym, ◌∙◌, ap, [],
}
use tiny_s3_proxy.Text.{Bytes, codes}
use tiny_s3_proxy.Auth.Crypto.{Crypto}

split_star-append : (s : Bytes) → s ≡ (split_star s).0 ++ (split_star s).1
unfolding split_star
split_star-append [] = refl
split_star-append (b ∷ s) = ground (arith, split_star-append s)

-- The string to sign of a chunk, written out.
abbrev pub chunk_string : StreamingSigV4aContext → Bytes → Bytes
chunk_string ctx sha =
    codes "AWS4-ECDSA-P256-SHA256-PAYLOAD\n"
    ++ (ctx.amz_date
        ++ b'\n'
          ∷ (ctx.scope
              ++ b'\n'
                ∷ (ctx.previous_signature_hex
                    ++ b'\n'
                      ∷ (codes "e3b0c44298fc1c149afbf4c8996fb92427ae41e4649b934ca495991b7852b855\n"
                          ++ sha))))

payload_string_to_sign-chunk_string :
    (ctx : StreamingSigV4aContext) (sha : Bytes)
    → payload_string_to_sign ctx sha ≡ chunk_string ctx sha
unfolding payload_string_to_sign
payload_string_to_sign-chunk_string ctx sha = refl

module _ (crypto : Crypto) where
  parse_der_signature_hex-ok :
      (s der : Bytes) → parse_der_signature_hex crypto s ≡ ok der → s ≡ hex_encode_lower der
  unfolding parse_der_signature_hex
  parse_der_signature_hex-ok s der h = elim (Option-cases (hex_decode_lower s)) [
    | inl e ↦ absurd (ground (arith, e, h))
    | inr (bytes, e) ↦
        sym (hex_encode_lower-hex_decode_lower s bytes e)
        ∙ ap hex_encode_lower (ground (arith, e, h))
  ]

  -- Lowercase hexadecimal digits, with stars behind them.
  abbrev pub IsPadded : (s der : Bytes) → Type 0
  IsPadded s der =
      (stars : Bytes) × (s ≡ hex_encode_lower der ++ stars) × (all (λ b. b == b'*') stars ≡ true)

  parse_streaming-IsPadded :
      (s der : Bytes) → parse_streaming_der_signature_hex_padded crypto s ≡ ok der → IsPadded s der
  unfolding parse_streaming_der_signature_hex_padded
  parse_streaming-IsPadded s der h =
      let (head, stars) = split_star s in
      let whole : s ≡ head ++ stars = split_star-append s in
      elim (Bool-cases (ltb max_sigv4a_der_signature_hex_len (length s))) [
        | inl over ↦ absurd (ground (arith, over, h))
        | inr within ↦ elim (Bool-cases (is_empty stars)) [
          | inl bare ↦ (
            [],
            parse_der_signature_hex-ok s der (ground (arith, within, bare, h))
                ∙ sym (append-nil (hex_encode_lower der)),
            refl,
          )
          | inr padded ↦ elim (Bool-cases (length s == max_sigv4a_der_signature_hex_len)) [
            | inr short ↦ absurd (ground (arith, within, padded, short, h))
            | inl long ↦ elim (Bool-cases (all (λ b. b == b'*') stars)) [
              | inr other ↦ absurd (ground (arith, within, padded, long, other, h))
              | inl only ↦ (
                stars,
                whole
                    ∙ ap (λ t. t ++ stars)
                        (parse_der_signature_hex-ok head der
                          (ground (arith, within, padded, long, only, h))),
                only,
              )
            ]
          ]
        ]
      ]

  -- What an accepted signature is.
  pub verify_payload_chunk-ok :
      (ctx next : StreamingSigV4aContext) (sha supplied : Bytes)
      → verify_payload_chunk crypto ctx sha supplied ≡ ok next
      → (der : Bytes) × IsPadded supplied der
        × (crypto.p256_verify ctx.verifying_key (chunk_string ctx sha) der ≡ true)
        × (next ≡ record ctx { previous_signature_hex = trim_end_stars supplied })
  unfolding verify_payload_chunk verify_sigv4a_der_signature
  verify_payload_chunk-ok ctx next sha supplied h =
      elim (Result-cases (parse_streaming_der_signature_hex_padded crypto supplied)) [
        | inl (e, bad) ↦ absurd (ground (arith, bad, h))
        | inr (der, e) ↦ (
          der,
          parse_streaming-IsPadded supplied der e,
          rw (← payload_string_to_sign-chunk_string ctx sha) (ground (arith, e, h)),
          ground (arith, e, h),
        )
      ]
