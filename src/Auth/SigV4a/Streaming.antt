-- ===== src/Auth/SigV4a/Streaming.antt =====
-- The chained chunk and trailer signatures of ECDSA streaming uploads
-- (src/auth/sigv4a/streaming.rs).
use tiny_s3_proxy.Text.{Bytes, codes}
use tiny_s3_proxy.Prelude.{Result, [], err, ok, ◌∷◌}
use tiny_s3_proxy.Text.Numbers.{hex_encode_lower}
use tiny_s3_proxy.Auth.Crypto.{Crypto}
use tiny_s3_proxy.Auth.SigV4.Streaming.{
  StreamingError, chunk_signature_mismatch, trailer_signature_mismatch, invalid_signature_hex,
  empty_sha256_hex, lines,
}
use tiny_s3_proxy.Auth.SigV4a.Crypto.{
  trim_end_stars, parse_streaming_der_signature_hex_padded, verify_sigv4a_der_signature,
}

pub record StreamingSigV4aContext : Type 0 where
  pub verifying_key : Bytes
  pub amz_date : Bytes
  pub scope : Bytes
  pub previous_signature_hex : Bytes

unfoldable pub payload_string_to_sign : StreamingSigV4aContext → Bytes → Bytes
payload_string_to_sign ctx chunk_sha256_hex = lines (
    codes "AWS4-ECDSA-P256-SHA256-PAYLOAD"
    ∷ ctx.amz_date
    ∷ ctx.scope
    ∷ ctx.previous_signature_hex
    ∷ empty_sha256_hex
    ∷ chunk_sha256_hex
    ∷ [])

unfoldable pub trailer_string_to_sign : StreamingSigV4aContext → Bytes → Bytes
trailer_string_to_sign ctx trailer_hash_hex = lines (
    codes "AWS4-ECDSA-P256-SHA256-TRAILER"
    ∷ ctx.amz_date
    ∷ ctx.scope
    ∷ ctx.previous_signature_hex
    ∷ trailer_hash_hex
    ∷ [])

module _ (crypto : Crypto) where
  unfoldable pub verify_payload_chunk :
      StreamingSigV4aContext → Bytes → Bytes → Result StreamingError StreamingSigV4aContext
  unfolding payload_string_to_sign
  verify_payload_chunk ctx chunk_sha256_hex supplied =
      elim (parse_streaming_der_signature_hex_padded crypto supplied) [
        | err _ ↦ err (invalid_signature_hex supplied)
        | ok signature_der ↦
            elim (verify_sigv4a_der_signature crypto ctx.verifying_key
              (payload_string_to_sign ctx chunk_sha256_hex) signature_der) [
                | err _ ↦ err chunk_signature_mismatch
                | ok _ ↦ ok (record ctx { previous_signature_hex = trim_end_stars supplied })
              ]
      ]

  unfoldable pub verify_trailer :
      StreamingSigV4aContext → Bytes → Bytes → Result StreamingError (Unit {0})
  unfolding trailer_string_to_sign
  verify_trailer ctx canonical_trailer supplied =
      elim (parse_streaming_der_signature_hex_padded crypto supplied) [
        | err _ ↦ err (invalid_signature_hex supplied)
        | ok signature_der ↦
            let trailer_hash_hex = hex_encode_lower (crypto.sha256 canonical_trailer) in
            elim (verify_sigv4a_der_signature crypto ctx.verifying_key
              (trailer_string_to_sign ctx trailer_hash_hex) signature_der) [
                | err _ ↦ err trailer_signature_mismatch
                | ok _ ↦ ok tt
              ]
      ]
