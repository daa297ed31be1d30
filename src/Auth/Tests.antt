-- ===== src/Auth/Tests.antt =====
-- Signatures of chunks (src/auth/sigv4/streaming.rs).
use tiny_s3_proxy.Text.Numbers.{hex_encode_lower}
use tiny_s3_proxy.Auth.SigV4.Streaming.Accepts.{chunk_hmac, verify_payload_chunk_decides, IsHex32}
use tiny_s3_proxy.Auth.Crypto.{Crypto}
use tiny_s3_proxy.Text.{Bytes, codes, bytes_eq}
use tiny_s3_proxy.Prelude.{err, All, [], arith, ok, refl, some, true, ◌++◌, ◌<◌, ◌↔◌, ◌∷◌, ◌≡◌}
use tiny_s3_proxy.Auth.SigV4.Streaming.{
  verify_payload_chunk, invalid_signature_hex, parse_hex32, StreamingSigV4Context,
}

abbrev eight : Bytes
eight = 10 ∷ 11 ∷ 12 ∷ 13 ∷ 14 ∷ 15 ∷ 16 ∷ 255 ∷ []

-- A stand-in for the cryptographic crates, whose HMAC has 32 bytes.
abbrev crypto : Crypto
crypto = record {
  sha256 = λ s. s;
  hmac_sha256 = λ k s. eight ++ eight ++ eight ++ eight;
  checksum = λ a s. s;
  base64_decode = λ s. some s;
  is_der = λ s. true;
  p256_verify = λ k m s. true;
}

abbrev context : StreamingSigV4Context
context = record {
  signing_key = [];
  amz_date = codes "20260101T000000Z";
  scope = codes "20260101/us-east-1/s3/aws4_request";
  previous_signature_hex = codes "seed";
}

abbrev supplied : Bytes
supplied = codes "0a0b0c0d0e0f10ff0a0b0c0d0e0f10ff0a0b0c0d0e0f10ff0a0b0c0d0e0f10ff"

digest_bytes : All (λ b. b < 256) (eight ++ eight ++ eight ++ eight)
digest_bytes = ground arith

verify_payload_chunk_decides_example :
    ((verify_payload_chunk crypto context (codes "00") supplied ≡ ok context) ↔ (
      (supplied ≡ hex_encode_lower (chunk_hmac crypto context (codes "00")))
      × (context ≡ record context { previous_signature_hex = supplied })))
    × ((verify_payload_chunk crypto context (codes "00") supplied
          ≡ err (invalid_signature_hex supplied))
        ↔ ¬ IsHex32 supplied)
verify_payload_chunk_decides_example =
    verify_payload_chunk_decides crypto context context (codes "00") supplied (refl, digest_bytes)

accepts :
    verify_payload_chunk crypto context (codes "00") supplied
    ≡ ok (record context { previous_signature_hex = supplied })
unfolding verify_payload_chunk parse_hex32 tiny_s3_proxy.Text.bytes_eq
accepts = refl
