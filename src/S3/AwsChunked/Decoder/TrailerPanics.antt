-- ===== src/S3/AwsChunked/Decoder/TrailerPanics.antt =====
-- The trailer and its checksum cannot panic (src/s3/aws_chunked.rs).

use tiny_s3_proxy.S3.AwsChunked.Decoder.TrailerCheck.{read_trailer-algorithm}
use tiny_s3_proxy.S3.AwsChunked.Decoder.Panics.{
  panics-read_and_validate_trailer_signature, panics-read_and_validate_trailer,
  panics-verify_trailer_signature,
}
use tiny_s3_proxy.S3.AwsChunked.Panics.{
  panics, panics->>=, panics-expect_crlf, panics-expect_eof, panics-guard,
}
use tiny_s3_proxy.S3.AwsChunked.Decoder.{
  finish_trailer, read_trailer, computed_checksum, check_trailer, AwsChunkedDecoder, ChecksumHeader,
  verify_trailer_signature, canonical_trailer,
}
use tiny_s3_proxy.Auth.Crypto.{Crypto}
use tiny_s3_proxy.Dict.{is_some}
use tiny_s3_proxy.Prelude.{
  >>=-eq-ok, Bool, Option, Option-cases, arith, false, inl, inr, none, ok, refl, some, true, ◌≡◌,
  ◌≢◌,
}
use tiny_s3_proxy.Text.{Bytes}
use tiny_s3_proxy.S3.Checksum.{ChecksumAlgorithm, sha256, crc32, crc32c, crc64nvme, sha1}
use tiny_s3_proxy.S3.AwsChunked.Types.{
  trailer_info, signed_chunk_algorithm, non_trailer, unsigned_trailer, signed_trailer, DecoderMode,
}
use tiny_s3_proxy.S3.AwsChunked.Inbound.{Inbound, expect_crlf, expect_eof}
use tiny_s3_proxy.S3.AwsChunked.Trailer.{
  read_and_validate_trailer, read_and_validate_trailer_signature,
}

-- The side-channel hasher is there where the final check needs it.
abbrev pub has_hasher : Option (Bytes × ChecksumAlgorithm × Bool) → Option Bytes → Bool
has_hasher none fed = true
has_hasher (some (_, sha256, _)) fed = true
has_hasher (some (_, _, _)) fed = is_some fed

-- A trailer signature follows only in a mode that has chunk signatures.
signed_trailer_lem :
    (mode : DecoderMode) (name : Bytes) (algorithm : ChecksumAlgorithm)
    → trailer_info mode ≡ some (name, algorithm, true)
    → is_some (signed_chunk_algorithm mode) ≡ true
unfolding trailer_info signed_chunk_algorithm
signed_trailer_lem (non_trailer a) name algorithm h = refl
signed_trailer_lem (unsigned_trailer n a) name algorithm h = ground arith
signed_trailer_lem (signed_trailer n a s) name algorithm h = refl

module _ (crypto : Crypto) where
  panics-finish_trailer :
      (d : AwsChunkedDecoder) (parsed : ChecksumHeader) (signed : Bool) (i : Inbound)
      → (signed ≡ true → is_some (signed_chunk_algorithm d.mode) ≡ true)
      → panics (finish_trailer crypto d parsed signed i) ≡ false
  unfolding finish_trailer
  panics-finish_trailer d parsed false i h = refl
  panics-finish_trailer d parsed true i h = elim (Option-cases (signed_chunk_algorithm d.mode)) [
    | inl e ↦ absurd (cc (h refl, e))
    | inr (algorithm, e) ↦
        rw (e, finish_trailer)
          (panics->>= (read_and_validate_trailer_signature crypto algorithm i) _
            (panics-read_and_validate_trailer_signature crypto algorithm i)
            (λ (sig, j) k.
              panics->>=
                (verify_trailer_signature crypto d.signature_policy (canonical_trailer parsed) sig)
                (λ _. ok j)
                (panics-verify_trailer_signature crypto d.signature_policy
                  (canonical_trailer parsed) sig)
                (λ a l. refl)))
  ]

  pub panics-read_trailer :
      (d : AwsChunkedDecoder) (info : Option (Bytes × ChecksumAlgorithm × Bool))
      → trailer_info d.mode ≡ info
      → panics (read_trailer crypto d info) ≡ false
  unfolding read_trailer
  panics-read_trailer d none is =
      panics->>= (expect_crlf d.inner) _ (panics-expect_crlf d.inner)
        (λ i h. panics->>= (expect_eof i) _ (panics-expect_eof i) (λ a k. refl))
  panics-read_trailer d (some (name, algorithm, signed)) is =
      panics->>= (read_and_validate_trailer crypto name algorithm d.inner) _
        (panics-read_and_validate_trailer crypto name algorithm d.inner)
        (λ (parsed, i) h.
          panics->>= (finish_trailer crypto d parsed signed i) _
            (panics-finish_trailer d parsed signed i
              (λ on. signed_trailer_lem d.mode name algorithm (rw on at is)))
            (λ j k.
              panics->>= (expect_crlf j) _ (panics-expect_crlf j)
                (λ l m. panics->>= (expect_eof l) _ (panics-expect_eof l) (λ a n. refl))))

  panics-computed_checksum :
      (d : AwsChunkedDecoder) (name : Bytes) (algorithm : ChecksumAlgorithm) (signed : Bool)
      → has_hasher (some (name, algorithm, signed)) d.algo_hasher ≡ true
      → panics (computed_checksum crypto d algorithm) ≡ false
  unfolding computed_checksum
  panics-computed_checksum d name sha256 signed h = refl
  panics-computed_checksum d name crc32 signed h = ground arith
  panics-computed_checksum d name crc32c signed h = ground arith
  panics-computed_checksum d name crc64nvme signed h = ground arith
  panics-computed_checksum d name sha1 signed h = ground arith

  read_trailer-none :
      (d : AwsChunkedDecoder) (header : ChecksumHeader)
      → (read_trailer crypto d none ≢ ok (some header))
  unfolding read_trailer
  read_trailer-none d header r =
      let (i, _, r1) = >>=-eq-ok (expect_crlf d.inner) _ r in
      let (u, _, r2) = >>=-eq-ok (expect_eof i) _ r1 in cc

  pub panics-check_trailer :
      (d d' : AwsChunkedDecoder) (info : Option (Bytes × ChecksumAlgorithm × Bool))
      (trailer : Option ChecksumHeader)
      → has_hasher info d.algo_hasher ≡ true
      → read_trailer crypto d' info ≡ ok trailer
      → panics (check_trailer crypto d trailer) ≡ false
  unfolding check_trailer
  panics-check_trailer d d' info none h r = refl
  panics-check_trailer d d' none (some header) h r = absurd (read_trailer-none d' header r)
  panics-check_trailer d d' (some (name, algorithm, signed)) (some header) h r =
      let (header', same, is) =
        read_trailer-algorithm crypto d' name algorithm signed (some header) r in
      let right : header.algorithm ≡ algorithm = cc in
      let clean : panics (computed_checksum crypto d header.algorithm) ≡ false =
        rw right (panics-computed_checksum d name algorithm signed h) in
      elim (Option-cases (crypto.base64_decode header.value)) [
        | inl e ↦ rw (e, check_trailer)
        | inr (expected, e) ↦
            rw (e, check_trailer)
              (panics->>= (computed_checksum crypto d header.algorithm) _ clean
                (λ computed k. panics-guard _ _ refl))
      ]
