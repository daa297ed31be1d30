-- ===== src/S3/AwsChunked/Decoder/TrailerCheck.antt =====
-- What the final check of the trailer shows (src/s3/aws_chunked.rs).
use tiny_s3_proxy.Text.{Bytes}
use tiny_s3_proxy.Prelude.{
  Bool, Option, arith, length, none, ok, some, ℕ, ◌≡◌, >>=-eq-ok, Option-cases, Result-cases, ap,
  inl, inr, ok_injective, sym, ◌∙◌,
}
use tiny_s3_proxy.Text.Laws.{bytes_eq_iff}
use tiny_s3_proxy.Auth.Crypto.{Crypto}
use tiny_s3_proxy.S3.Checksum.{
  ChecksumAlgorithm, ChecksumHeader, crc32, crc32c, crc64nvme, sha1, sha256,
}
use tiny_s3_proxy.S3.AwsChunked.Types.{DecoderMode, trailer_info}
use tiny_s3_proxy.S3.AwsChunked.Inbound.{read_trailer_line, expect_crlf, expect_eof}
use tiny_s3_proxy.S3.AwsChunked.Trailer.{
  parse_trailer_line, validate_trailer, read_and_validate_trailer,
}
use tiny_s3_proxy.S3.AwsChunked.Decoder.{
  AwsChunkedDecoder, finish_trailer, read_trailer, computed_checksum, check_trailer,
}

-- The digest that a trailer of the algorithm declares.
abbrev pub digest : Crypto → ChecksumAlgorithm → Bytes → Bytes
digest crypto sha256 body = crypto.sha256 body
digest crypto algorithm body = crypto.checksum algorithm body

-- What the side-channel hasher has been given.
abbrev pub algo_input : Option (Bytes × ChecksumAlgorithm × Bool) → Bytes → Option Bytes
algo_input none body = none
algo_input (some (_, sha256, _)) body = none
algo_input (some (_, _, _)) body = some body

-- Between two chunks, all that counts the body agrees with what was written.
pub record IsConsistent (declared : ℕ) (mode : DecoderMode) (d : AwsChunkedDecoder) : Type 0 where
  pub declares : d.declared_decoded_len ≡ declared
  pub has_mode : d.mode ≡ mode
  pub counted : d.decoded_len ≡ length d.written
  pub hashed : d.hasher ≡ d.written
  pub fed : d.algo_hasher ≡ algo_input (trailer_info mode) d.written

-- The trailer of a summary: none in the mode without one, else the mode's algorithm with the
-- digest of the body.
abbrev pub IsTrailerOf :
    Crypto → Option (Bytes × ChecksumAlgorithm × Bool) → Bytes → Option ChecksumHeader → Type 0
IsTrailerOf crypto none body trailer = trailer ≡ none
IsTrailerOf crypto (some (_, algorithm, _)) body trailer =
    (header : ChecksumHeader) × (trailer ≡ some header)
    × (header.algorithm ≡ algorithm)
    × (crypto.base64_decode header.value ≡ some (digest crypto algorithm body))

module _ (crypto : Crypto) where
  validate_trailer-algorithm :
      (name : Bytes) (algorithm : ChecksumAlgorithm) (parsed : Option (Bytes × Bytes))
      (header : ChecksumHeader)
      → validate_trailer crypto name algorithm parsed ≡ ok header
      → header.algorithm ≡ algorithm
  unfolding validate_trailer
  validate_trailer-algorithm name algorithm none header h = cc
  validate_trailer-algorithm name algorithm (some (n, v)) header h = ground arith

  pub read_trailer-algorithm :
      (d : AwsChunkedDecoder) (name : Bytes) (algorithm : ChecksumAlgorithm) (signed : Bool)
      (trailer : Option ChecksumHeader)
      → read_trailer crypto d (some (name, algorithm, signed)) ≡ ok trailer
      → (header : ChecksumHeader) × (trailer ≡ some header) × (header.algorithm ≡ algorithm)
  unfolding read_trailer read_and_validate_trailer
  read_trailer-algorithm d name algorithm signed trailer h =
      let ((parsed, i), r, h1) =
        >>=-eq-ok (read_and_validate_trailer crypto name algorithm d.inner) _ h in
      let (i', _, h2) = >>=-eq-ok (finish_trailer crypto d parsed signed i) _ h1 in
      let (i'', _, h3) = >>=-eq-ok (expect_crlf i') _ h2 in
      let (_, _, h4) = >>=-eq-ok (expect_eof i'') _ h3 in
      let ((line, j), _, r1) = >>=-eq-ok (read_trailer_line name d.inner) _ r in
      let (header, v, r2) =
        >>=-eq-ok (validate_trailer crypto name algorithm (parse_trailer_line line)) _ r1 in
      let same : header ≡ parsed = ap (λ p. p.0) (ok_injective r2) in
      let right : header.algorithm ≡ algorithm =
        validate_trailer-algorithm name algorithm (parse_trailer_line line) header v in
      (parsed, sym (ok_injective h4), rw same at right)

  computed_checksum-digest :
      (d : AwsChunkedDecoder) (name : Bytes) (algorithm : ChecksumAlgorithm) (signed : Bool)
      (computed : Bytes)
      → d.hasher ≡ d.written
      → d.algo_hasher ≡ algo_input (some (name, algorithm, signed)) d.written
      → computed_checksum crypto d algorithm ≡ ok computed
      → computed ≡ digest crypto algorithm d.written
  unfolding computed_checksum
  computed_checksum-digest d name crc32 signed computed e f h = ground arith
  computed_checksum-digest d name crc32c signed computed e f h = ground arith
  computed_checksum-digest d name crc64nvme signed computed e f h = ground arith
  computed_checksum-digest d name sha1 signed computed e f h = ground arith
  computed_checksum-digest d name sha256 signed computed e f h = ground arith

  -- An accepted trailer declares the digest of what was written.
  check_trailer-digest :
      (d : AwsChunkedDecoder) (name : Bytes) (algorithm : ChecksumAlgorithm) (signed : Bool)
      (header : ChecksumHeader)
      → d.hasher ≡ d.written
      → d.algo_hasher ≡ algo_input (some (name, algorithm, signed)) d.written
      → header.algorithm ≡ algorithm
      → check_trailer crypto d (some header) ≡ ok tt
      → crypto.base64_decode header.value ≡ some (digest crypto algorithm d.written)
  unfolding check_trailer
  check_trailer-digest d name algorithm signed header e f a h =
      elim (Option-cases (crypto.base64_decode header.value)) [
        | inl bad ↦ ground arith
        | inr (expected, decoded) ↦
            elim (Result-cases (computed_checksum crypto d header.algorithm)) [
              | inl (x, bad) ↦ ground arith
              | inr (computed, c) ↦
                  let right : computed ≡ digest crypto algorithm d.written =
                    computed_checksum-digest d name algorithm signed computed e f (rw a at c) in
                  decoded ∙ ap some (ground (arith, right, bytes_eq_iff computed expected))
            ]
      ]

  pub trailer-IsTrailerOf :
      (d e : AwsChunkedDecoder) (info : Option (Bytes × ChecksumAlgorithm × Bool))
      (trailer : Option ChecksumHeader)
      → d.hasher ≡ d.written
      → d.algo_hasher ≡ algo_input info d.written
      → read_trailer crypto e info ≡ ok trailer
      → check_trailer crypto d trailer ≡ ok tt
      → IsTrailerOf crypto info d.written trailer
  unfolding read_trailer
  trailer-IsTrailerOf d e none trailer hashed fed r c =
      let (i, _, r1) = >>=-eq-ok (expect_crlf e.inner) _ r in
      let (_, _, r2) = >>=-eq-ok (expect_eof i) _ r1 in sym (ok_injective r2)
  trailer-IsTrailerOf d e (some (name, algorithm, signed)) trailer hashed fed r c =
      let (header, is, right) = read_trailer-algorithm e name algorithm signed trailer r in
      (
        header,
        is,
        right,
        check_trailer-digest d name algorithm signed header hashed fed right (rw is at c),
      )
