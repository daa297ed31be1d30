-- ===== src/S3/AwsChunked/Decoder/Signs.antt =====
-- What a signature that a policy accepts is (src/s3/aws_chunked.rs).
use tiny_s3_proxy.S3.AwsChunked.Decoder.{verify_chunk, check_signature}
use tiny_s3_proxy.S3.AwsChunked.Types.{ChunkSignaturePolicy, shape_only, verify_hmac, verify_ecdsa}
use tiny_s3_proxy.Auth.SigV4.Streaming as Hmac
use tiny_s3_proxy.Auth.SigV4.Streaming.Accepts as HmacAccepts
use tiny_s3_proxy.Auth.SigV4a.Streaming as Ecdsa
use tiny_s3_proxy.Auth.SigV4a.Accepts as EcdsaAccepts
use tiny_s3_proxy.Auth.SigV4a.Crypto.{trim_end_stars}
use tiny_s3_proxy.Auth.Crypto.{Crypto}
use tiny_s3_proxy.Text.{Bytes}
use tiny_s3_proxy.Text.Numbers.{hex_encode_lower}
use tiny_s3_proxy.Prelude.{ℕ, ◌≡◌, ok, some, true, arith, Result-cases, inl, inr}

-- The signature of the text of a chunk with the SHA-256 `sha`, under a policy, and the policy for
-- the chunk behind it: the HMAC in hexadecimal, or a DER signature that verifies, in hexadecimal
-- with stars behind it.
abbrev pub Signs :
    Crypto → ChunkSignaturePolicy → (sha signature : Bytes) → (next : ChunkSignaturePolicy) → Type 0
Signs crypto shape_only sha signature next = next ≡ shape_only
Signs crypto (verify_hmac ctx) sha signature next =
    (signature ≡ hex_encode_lower (HmacAccepts.chunk_hmac crypto ctx sha))
    × (next ≡ verify_hmac (record ctx { previous_signature_hex = signature }))
Signs crypto (verify_ecdsa ctx) sha signature next =
    (der : Bytes) × EcdsaAccepts.IsPadded crypto signature der
    × (crypto.p256_verify ctx.verifying_key (EcdsaAccepts.chunk_string ctx sha) der ≡ true)
    × (next ≡ verify_ecdsa (record ctx { previous_signature_hex = trim_end_stars signature }))

verify_chunk-Signs :
    (crypto : Crypto) (policy next : ChunkSignaturePolicy) (sha signature : Bytes) (index : ℕ)
    → verify_chunk crypto policy sha signature index ≡ ok next
    → Signs crypto policy sha signature next
unfolding verify_chunk
verify_chunk-Signs crypto shape_only next sha signature index h = ground (arith, h)
verify_chunk-Signs crypto (verify_hmac ctx) next sha signature index h =
    elim (Result-cases (Hmac.verify_payload_chunk crypto ctx sha signature)) [
      | inl (x, e) ↦ absurd (ground (arith, e, h))
      | inr (ctx', e) ↦
          let (is, left) = HmacAccepts.verify_payload_chunk-ok crypto ctx ctx' sha signature e in
          let after : next ≡ verify_hmac ctx' = ground (arith, e, h) in (is, rw (← left) after)
    ]
verify_chunk-Signs crypto (verify_ecdsa ctx) next sha signature index h =
    elim (Result-cases (Ecdsa.verify_payload_chunk crypto ctx sha signature)) [
      | inl (x, e) ↦ absurd (ground (arith, e, h))
      | inr (ctx', e) ↦
          let (der, padded, verifies, left) =
            EcdsaAccepts.verify_payload_chunk-ok crypto ctx ctx' sha signature e in
          let after : next ≡ verify_ecdsa ctx' = ground (arith, e, h) in
          (der, padded, verifies, rw (← left) after)
    ]

pub check_signature-Signs :
    (crypto : Crypto) (policy next : ChunkSignaturePolicy) (sha signature : Bytes) (index : ℕ)
    → check_signature crypto true policy sha (some signature) index ≡ ok next
    → Signs crypto policy sha signature next
unfolding check_signature
check_signature-Signs crypto policy next sha signature index h =
    verify_chunk-Signs crypto policy next sha signature index h
