-- ===== src/Auth/SigV4/Streaming/Accepts.antt =====
-- Which chunk signatures are accepted (src/auth/sigv4/streaming.rs).
use tiny_s3_proxy.Auth.SigV4.Streaming.{
  parse_hex32, StreamingSigV4Context, verify_payload_chunk, hex_encode_lower,
  payload_string_to_sign, invalid_signature_hex,
}
use tiny_s3_proxy.Auth.Crypto.{Crypto}
use tiny_s3_proxy.Text.{Bytes, codes}
use tiny_s3_proxy.Prelude.{
  All, ==_iff, ◌==◌, ◌∷◌, sym, none, ◌++◌, Option-cases, arith, inl, inr, length, ok, refl, some,
  ◌<◌, ◌↔◌, ◌≡◌, err, Bool-cases,
}
use tiny_s3_proxy.Text.Laws.{bytes_eq_iff}
use tiny_s3_proxy.Text.Numbers.Laws.{
  IsLowerHexDigit, hex_encode_lower-hex_decode_lower, hex_decode_lower-IsLowerHexDigit,
  IsLowerHexDigit-hex_decode_lower, hex_decode_lower-hex_encode_lower, length-hex_encode_lower,
}

-- What SHA-256 and HMAC-SHA256 return: 32 bytes.
abbrev pub IsDigest : Bytes → Type 0
IsDigest digest = (length digest ≡ 32) × All (λ b. b < 256) digest

-- The string to sign of a chunk, written out.
abbrev pub chunk_string : StreamingSigV4Context → Bytes → Bytes
chunk_string ctx sha =
    codes "AWS4-HMAC-SHA256-PAYLOAD\n"
    ++ (ctx.amz_date
        ++ b'\n'
          ∷ (ctx.scope
              ++ b'\n'
                ∷ (ctx.previous_signature_hex
                    ++ b'\n'
                      ∷ (codes "e3b0c44298fc1c149afbf4c8996fb92427ae41e4649b934ca495991b7852b855\n"
                          ++ sha))))

abbrev pub chunk_hmac : Crypto → StreamingSigV4Context → Bytes → Bytes
chunk_hmac crypto ctx sha = crypto.hmac_sha256 ctx.signing_key (chunk_string ctx sha)

-- 64 lowercase hexadecimal digits.
abbrev pub IsHex32 : Bytes → Type 0
IsHex32 s = (length s ≡ 64) × All IsLowerHexDigit s

parse_hex32-IsHex32 : (s bytes : Bytes) → parse_hex32 s ≡ some bytes → IsHex32 s
unfolding parse_hex32
parse_hex32-IsHex32 s bytes h = elim (Bool-cases (length s == 64)) [
  | inl long ↦
      let size : length s ≡ 64 = (==_iff (length s) 64).0 long in
      (size, hex_decode_lower-IsLowerHexDigit s bytes (rw (long, parse_hex32) at h))
  | inr odd ↦ let nothing : none ≡ some bytes = rw (odd, parse_hex32) at h in absurd (cc nothing)
]

parse_hex32-eq-none : (s : Bytes) → (parse_hex32 s ≡ none) ↔ ¬ IsHex32 s
unfolding parse_hex32
parse_hex32-eq-none s = (
  λ h digits.
      let (bytes, reads) = IsLowerHexDigit-hex_decode_lower 32 s digits.0 digits.1 in
      ground (arith, h, reads, digits.0),
  λ odd. elim (Option-cases (parse_hex32 s)) [
    | inl e ↦ e
    | inr (bytes, e) ↦ absurd (odd (parse_hex32-IsHex32 s bytes e))
  ],
)

parse_hex32-eq-some : (s bytes : Bytes) → parse_hex32 s ≡ some bytes → hex_encode_lower bytes ≡ s
unfolding parse_hex32
parse_hex32-eq-some s bytes h = hex_encode_lower-hex_decode_lower s bytes (ground (arith, h))

parse_hex32-hex_encode_lower :
    (digest : Bytes) → IsDigest digest → parse_hex32 (hex_encode_lower digest) ≡ some digest
unfolding parse_hex32
parse_hex32-hex_encode_lower digest (size, small) =
    let twice : length (hex_encode_lower digest) ≡ 64 =
      omega (arith, length-hex_encode_lower digest, size) in
    rw twice (hex_decode_lower-hex_encode_lower digest small)

payload_string_to_sign-chunk_string :
    (ctx : StreamingSigV4Context) (sha : Bytes)
    → payload_string_to_sign ctx sha ≡ chunk_string ctx sha
unfolding payload_string_to_sign
payload_string_to_sign-chunk_string ctx sha = refl

verify_payload_chunk_reads :
    (crypto : Crypto) (ctx next : StreamingSigV4Context) (sha supplied : Bytes)
    → (verify_payload_chunk crypto ctx sha supplied ≡ ok next) ↔ (
        (parse_hex32 supplied ≡ some (chunk_hmac crypto ctx sha))
        × (next ≡ record ctx { previous_signature_hex = supplied }))
unfolding verify_payload_chunk
verify_payload_chunk_reads crypto ctx next sha supplied =
    let hmac = crypto.hmac_sha256 ctx.signing_key (payload_string_to_sign ctx sha) in
    rw (chunk_hmac, ← payload_string_to_sign-chunk_string ctx sha)
      (elim (Option-cases (parse_hex32 supplied)) [
        | inl e ↦ ground arith
        | inr (bytes, e) ↦ ground (arith, bytes_eq_iff hmac bytes)
      ])

verify_payload_chunk-malformed :
    (crypto : Crypto) (ctx : StreamingSigV4Context) (sha supplied : Bytes)
    → (verify_payload_chunk crypto ctx sha supplied ≡ err (invalid_signature_hex supplied))
      ↔ ¬ IsHex32 supplied
unfolding verify_payload_chunk
verify_payload_chunk-malformed crypto ctx sha supplied =
    ground (arith, parse_hex32-eq-none supplied)

-- What an accepted signature is, whatever the HMAC returns.
pub verify_payload_chunk-ok :
    (crypto : Crypto) (ctx next : StreamingSigV4Context) (sha supplied : Bytes)
    → verify_payload_chunk crypto ctx sha supplied ≡ ok next
    → (supplied ≡ hex_encode_lower (chunk_hmac crypto ctx sha))
      × (next ≡ record ctx { previous_signature_hex = supplied })
verify_payload_chunk-ok crypto ctx next sha supplied h =
    let (reads, is) = (verify_payload_chunk_reads crypto ctx next sha supplied).0 h in
    (sym (parse_hex32-eq-some supplied (chunk_hmac crypto ctx sha) reads), is)

-- Where the HMAC of a chunk's string to sign has 32 bytes: the chunk's signature is accepted
-- exactly when it is that HMAC in lowercase hexadecimal, and what is left is then the context whose
-- previous signature is this one; and it is refused as malformed exactly when it is not 64 lowercase
-- hexadecimal digits. The string to sign is the one of AWS: the algorithm, the date, the scope, the
-- previous signature, the SHA-256 of nothing and the SHA-256 of the chunk, in lines.
pub verify_payload_chunk_decides :
    (crypto : Crypto) (ctx next : StreamingSigV4Context) (sha supplied : Bytes)
    → IsDigest (chunk_hmac crypto ctx sha)
    → ((verify_payload_chunk crypto ctx sha supplied ≡ ok next) ↔ (
        (supplied ≡ hex_encode_lower (chunk_hmac crypto ctx sha))
        × (next ≡ record ctx { previous_signature_hex = supplied })))
      × ((verify_payload_chunk crypto ctx sha supplied ≡ err (invalid_signature_hex supplied))
          ↔ ¬ IsHex32 supplied)
verify_payload_chunk_decides crypto ctx next sha supplied digest =
    let hmac = chunk_hmac crypto ctx sha in
    (
      (
        verify_payload_chunk-ok crypto ctx next sha supplied,
        λ (is, left).
            (verify_payload_chunk_reads crypto ctx next sha supplied).1
              (rw (is) (parse_hex32-hex_encode_lower hmac digest), left),
      ),
      verify_payload_chunk-malformed crypto ctx sha supplied,
    )
