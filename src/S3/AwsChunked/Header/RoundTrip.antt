-- ===== src/S3/AwsChunked/Header/RoundTrip.antt =====
-- Chunk headers as a client writes them are read back (src/s3/aws_chunked.rs).
use tiny_s3_proxy.Text.Laws.{strip_prefix-append}
use tiny_s3_proxy.Text.Numbers.Laws.{to_hex_before_head, parse_hex_u64-to_hex}
use tiny_s3_proxy.S3.AwsChunked.Header.{
  parse_chunk_size, parse_chunk_header, parse_signature_part, Crypto, SignedChunkAlgorithm,
  validate_chunk_signature_shape,
}
use tiny_s3_proxy.Text.Numbers.{nibble, to_hex_before, to_hex}
use tiny_s3_proxy.Text.{Bytes, codes, contains_byte, split_once}
use tiny_s3_proxy.Prelude.{
  Bool-cases, [], arith, false, inl, inr, is_empty, none, ok, refl, some, suc, zero, ℕ, ◌%◌, ◌++◌,
  ◌/◌, ◌<◌, ◌==◌, ◌^◌, ◌∷◌, ◌≡◌,
}

contains_byte-nibble : (d : ℕ) → d < 16 → (nibble d == b';') ≡ false
unfolding nibble
contains_byte-nibble d h = ground arith

contains_byte-to_hex_before :
    (fuel n : ℕ) (rest : Bytes)
    → contains_byte b';' (to_hex_before fuel n rest) ≡ contains_byte b';' rest
unfolding to_hex_before contains_byte
contains_byte-to_hex_before zero n rest = refl
contains_byte-to_hex_before (suc fuel) n rest =
    let digit = contains_byte-nibble (n % 16) (omega arith) in
    elim (Bool-cases (n / 16 == 0)) [
      | inl last ↦ ground (arith, digit)
      | inr more ↦
          ground (arith, digit, contains_byte-to_hex_before fuel (n / 16) (nibble (n % 16) ∷ rest))
    ]

split_once-append :
    (c : ℕ) (s t : Bytes) → contains_byte c s ≡ false → split_once c (s ++ c ∷ t) ≡ some (s, t)
unfolding contains_byte split_once
split_once-append c [] t h = ground arith
split_once-append c (b ∷ s) t h = ground (arith, split_once-append c s t)

parse_chunk_size-to_hex : (n : ℕ) → n < 2 ^ 64 → parse_chunk_size (to_hex n) ≡ ok n
unfolding parse_chunk_size
parse_chunk_size-to_hex n h =
    let (d, s, digit, e) = to_hex_before_head 15 n [] h in
    let full : is_empty (to_hex n) ≡ false = rw e in ground (arith, full, parse_hex_u64-to_hex n h)

-- A chunk size below 2 ^ 64 in hexadecimal is a chunk header of that size in the modes without
-- chunk signatures; with `;chunk-signature=` and a signature of the algorithm's shape behind it,
-- it is one of that size and signature in the modes with them.
pub parse_chunk_header-to_hex :
    (crypto : Crypto) (n : ℕ) (sig : Bytes) (algorithm : SignedChunkAlgorithm)
    → n < 2 ^ 64
    → validate_chunk_signature_shape crypto sig algorithm ≡ ok tt
    → (parse_chunk_header crypto (to_hex n) none ≡ ok (record { size = n; signature_hex = none }))
      × (parse_chunk_header crypto
            (to_hex n ++ b';' ∷ (codes "chunk-signature=" ++ sig))
            (some algorithm)
          ≡ ok (record { size = n; signature_hex = some sig }))
unfolding parse_chunk_header parse_signature_part contains_byte
parse_chunk_header-to_hex crypto n sig algorithm h shape =
    let bare = contains_byte-to_hex_before 16 n [] in
    let size = parse_chunk_size-to_hex n h in
    let part = strip_prefix-append (codes "chunk-signature=") sig in
    (
      ground (arith, bare, size),
      rw (
        split_once-append b';' (to_hex n) (codes "chunk-signature=" ++ sig) bare,
        size,
        part,
        shape,
        parse_chunk_header,
        parse_signature_part,
      ),
    )
