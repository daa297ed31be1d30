-- ===== src/Auth/SigV4a/Crypto.antt =====
-- The wire shapes of SigV4A signatures (src/auth/sigv4a/crypto.rs). The elliptic curve is the
-- p256 crate's.
use tiny_s3_proxy.Text.{Bytes}
use tiny_s3_proxy.Prelude.{
  Result, [], all, err, if◌then◌else◌, is_empty, length, ltb, none, not, ok, some, ℕ, ◌%◌, ◌&&◌,
  ◌==◌, ◌||◌, ◌∷◌,
}
use tiny_s3_proxy.Text.Numbers.{hex_decode_lower, is_lower_hex_byte}
use tiny_s3_proxy.Auth.Crypto.{Crypto}

pub data SigV4aCryptoError : Type 0 where
  invalid_signature_hex invalid_der_signature verification_failed : SigV4aCryptoError

abbrev pub max_sigv4a_der_signature_hex_len : ℕ
max_sigv4a_der_signature_hex_len = 144

-- The bytes before the first `*`, and those from it on.
unfoldable pub split_star : Bytes → Bytes × Bytes
split_star [] = ([], [])
split_star (b ∷ s) =
    let (head, stars) = split_star s in if b == b'*' then ([], b ∷ s) else (b ∷ head, stars)

-- s.trim_end_matches('*')
unfoldable pub trim_end_stars : Bytes → Bytes
trim_end_stars [] = []
trim_end_stars (b ∷ s) =
    let rest = trim_end_stars s in if is_empty rest && b == b'*' then [] else b ∷ rest

module _ (crypto : Crypto) where
  unfoldable pub parse_der_signature_hex : Bytes → Result SigV4aCryptoError Bytes
  unfolding is_lower_hex_byte
  parse_der_signature_hex s =
      let odd_len = not (length s % 2 == 0) in
      if is_empty s || odd_len || ltb max_sigv4a_der_signature_hex_len (length s)
      then err invalid_signature_hex
      else if not (all is_lower_hex_byte s)
      then err invalid_signature_hex
      else elim (hex_decode_lower s) [
        | none ↦ err invalid_signature_hex
        | some bytes ↦ if crypto.is_der bytes then ok bytes else err invalid_der_signature
      ]

  unfoldable pub parse_streaming_der_signature_hex_padded : Bytes → Result SigV4aCryptoError Bytes
  unfolding split_star
  parse_streaming_der_signature_hex_padded s =
      let (head, stars) = split_star s in
      if ltb max_sigv4a_der_signature_hex_len (length s)
      then err invalid_signature_hex
      else if is_empty stars
      then parse_der_signature_hex s
      else if not (length s == max_sigv4a_der_signature_hex_len)
      then err invalid_signature_hex
      else if not (all (λ b. b == b'*') stars)
      then err invalid_signature_hex
      else parse_der_signature_hex head

  unfoldable pub verify_sigv4a_der_signature :
      Bytes → Bytes → Bytes → Result SigV4aCryptoError (Unit {0})
  verify_sigv4a_der_signature verifying_key string_to_sign signature_der =
      if not (crypto.is_der signature_der)
      then err invalid_der_signature
      else if crypto.p256_verify verifying_key string_to_sign signature_der
      then ok tt
      else err verification_failed
