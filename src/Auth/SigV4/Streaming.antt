-- ===== src/Auth/SigV4/Streaming.antt =====
-- The chained chunk and trailer signatures of HMAC streaming uploads
-- (src/auth/sigv4/streaming.rs).
pub mod Accepts
use tiny_s3_proxy.Text.{Bytes, bytes_eq, codes}
use tiny_s3_proxy.Prelude.{
  List, Option, Result, [], err, if◌then◌else◌, length, none, ok, some, ◌++◌, ◌==◌, ◌∷◌,
}
use tiny_s3_proxy.Text.Numbers.{hex_decode_lower, hex_encode_lower}
use tiny_s3_proxy.Auth.Crypto.{Crypto}

pub data StreamingError : Type 0 where
  chunk_signature_mismatch : StreamingError
  trailer_signature_mismatch : StreamingError
  invalid_signature_hex : Bytes → StreamingError

pub record StreamingSigV4Context : Type 0 where
  pub signing_key : Bytes
  pub amz_date : Bytes
  pub scope : Bytes
  pub previous_signature_hex : Bytes

abbrev pub empty_sha256_hex : Bytes
empty_sha256_hex = codes "e3b0c44298fc1c149afbf4c8996fb92427ae41e4649b934ca495991b7852b855"

-- 64 lowercase digits, as 32 bytes.
unfoldable pub parse_hex32 : Bytes → Option Bytes
unfolding hex_decode_lower
parse_hex32 s = if length s == 64 then hex_decode_lower s else none

-- The fields of a string to sign, a newline between two.
abbrev pub lines : List Bytes → Bytes
lines [] = []
lines (l ∷ []) = l
lines (l ∷ m ∷ ls) = l ++ b'\n' ∷ lines (m ∷ ls)

unfoldable pub payload_string_to_sign : StreamingSigV4Context → Bytes → Bytes
payload_string_to_sign ctx chunk_sha256_hex = lines (
    codes "AWS4-HMAC-SHA256-PAYLOAD"
    ∷ ctx.amz_date
    ∷ ctx.scope
    ∷ ctx.previous_signature_hex
    ∷ empty_sha256_hex
    ∷ chunk_sha256_hex
    ∷ [])

unfoldable pub trailer_string_to_sign : StreamingSigV4Context → Bytes → Bytes
trailer_string_to_sign ctx trailer_hash_hex = lines (
    codes "AWS4-HMAC-SHA256-TRAILER"
    ∷ ctx.amz_date
    ∷ ctx.scope
    ∷ ctx.previous_signature_hex
    ∷ trailer_hash_hex
    ∷ [])

module _ (crypto : Crypto) where
  -- The context advances only when the signature is the expected one.
  unfoldable pub verify_payload_chunk :
      StreamingSigV4Context → Bytes → Bytes → Result StreamingError StreamingSigV4Context
  unfolding payload_string_to_sign
  verify_payload_chunk ctx chunk_sha256_hex supplied = elim (parse_hex32 supplied) [
    | none ↦ err (invalid_signature_hex supplied)
    | some supplied_bytes ↦
        let computed =
          crypto.hmac_sha256 ctx.signing_key (payload_string_to_sign ctx chunk_sha256_hex) in
        if bytes_eq computed supplied_bytes
        then ok (record ctx { previous_signature_hex = supplied })
        else err chunk_signature_mismatch
  ]

  unfoldable pub verify_trailer :
      StreamingSigV4Context → Bytes → Bytes → Result StreamingError (Unit {0})
  unfolding trailer_string_to_sign
  verify_trailer ctx canonical_trailer supplied = elim (parse_hex32 supplied) [
    | none ↦ err (invalid_signature_hex supplied)
    | some supplied_bytes ↦
        let trailer_hash_hex = hex_encode_lower (crypto.sha256 canonical_trailer) in
        let computed =
          crypto.hmac_sha256 ctx.signing_key (trailer_string_to_sign ctx trailer_hash_hex) in
        if bytes_eq computed supplied_bytes then ok tt else err trailer_signature_mismatch
  ]
