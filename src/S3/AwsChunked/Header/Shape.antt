-- ===== src/S3/AwsChunked/Header/Shape.antt =====
-- What a chunk header that is accepted looks like (src/s3/aws_chunked.rs).
use tiny_s3_proxy.S3.AwsChunked.Header.{
  parse_chunk_header, parse_chunk_size, parse_signature_part, ParsedChunkHeader,
}
use tiny_s3_proxy.S3.AwsChunked.Types.{SignedChunkAlgorithm}
use tiny_s3_proxy.Auth.Crypto.{Crypto}
use tiny_s3_proxy.Text.{Bytes, codes, split_once, strip_prefix}
use tiny_s3_proxy.Text.Laws.{split_once-some, strip_prefix-some}
use tiny_s3_proxy.Text.Numbers.{parse_hex_u64}
use tiny_s3_proxy.Prelude.{
  ℕ, ◌≡◌, arith, some, ok, inl, inr, Option-cases, Result-cases, ◌++◌, ◌∷◌, ◌∙◌, ap,
}

parse_chunk_size-ok : (s : Bytes) (n : ℕ) → parse_chunk_size s ≡ ok n → parse_hex_u64 s ≡ some n
unfolding parse_chunk_size
parse_chunk_size-ok s n h = elim (Option-cases (parse_hex_u64 s)) [
  | inl e ↦ absurd (ground (arith, e, h))
  | inr (m, e) ↦ ground (arith, e, h)
]

parse_signature_part-ok :
    (crypto : Crypto) (part : Bytes) (a : SignedChunkAlgorithm) (sig : Bytes)
    → parse_signature_part crypto part a ≡ ok sig
    → part ≡ codes "chunk-signature=" ++ sig
unfolding parse_signature_part
parse_signature_part-ok crypto part a sig h =
    elim (Option-cases (strip_prefix part (codes "chunk-signature="))) [
      | inl e ↦ absurd (ground (arith, e, h))
      | inr (s, e) ↦
          strip_prefix-some part (codes "chunk-signature=") s e
          ∙ ap (λ t. codes "chunk-signature=" ++ t) (ground (arith, e, h))
    ]

-- The header of a chunk with a signature: the size in hexadecimal and the signature behind
-- `;chunk-signature=`.
abbrev pub IsSignedHeader : (line : Bytes) (size : ℕ) (signature : Bytes) → Type 0
IsSignedHeader line size signature =
    (digits : Bytes) × (line ≡ digits ++ b';' ∷ (codes "chunk-signature=" ++ signature))
    × (parse_hex_u64 digits ≡ some size)

pub parse_chunk_header-IsSignedHeader :
    (crypto : Crypto) (line : Bytes) (a : SignedChunkAlgorithm) (parsed : ParsedChunkHeader)
    → parse_chunk_header crypto line (some a) ≡ ok parsed
    → (signature : Bytes) × (parsed.signature_hex ≡ some signature)
      × IsSignedHeader line parsed.size signature
unfolding parse_chunk_header
parse_chunk_header-IsSignedHeader crypto line a parsed h =
    elim (Option-cases (split_once b';' line)) [
      | inl e ↦ absurd (ground (arith, e, h))
      | inr ((digits, part), e) ↦ elim (Result-cases (parse_chunk_size digits)) [
        | inl (x, bad) ↦ absurd (ground (arith, e, bad, h))
        | inr (n, size) ↦ elim (Result-cases (parse_signature_part crypto part a)) [
          | inl (x, bad) ↦ absurd (ground (arith, e, size, bad, h))
          | inr (sig, is) ↦ (
            sig,
            ground (arith, e, size, is, h),
            (
              digits,
              split_once-some b';' line digits part e
                  ∙ ap (λ t. digits ++ b';' ∷ t) (parse_signature_part-ok crypto part a sig is),
              parse_chunk_size-ok digits n size ∙ ground (arith, e, size, is, h),
            ),
          )
        ]
      ]
    ]
