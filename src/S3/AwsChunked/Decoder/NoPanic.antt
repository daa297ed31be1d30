-- ===== src/S3/AwsChunked/Decoder/NoPanic.antt =====
-- The decoder as a whole cannot panic (src/s3/aws_chunked.rs).
use tiny_s3_proxy.S3.AwsChunked.Decoder.TrailerPanics.{
  has_hasher, panics-read_trailer, panics-check_trailer,
}
use tiny_s3_proxy.S3.AwsChunked.Decoder.Progress.{data_chunk-IsAccepted}
use tiny_s3_proxy.S3.AwsChunked.Decoder.Signed.{next_header-state}
use tiny_s3_proxy.S3.AwsChunked.Decoder.Panics.{panics-check_signature}
use tiny_s3_proxy.S3.AwsChunked.Panics.{
  panics, panics->>=, panics-expect_crlf, panics-guard, panics-read_chunk_header_line,
  panics-parse_chunk_header, parse_chunk_header-signature, panics-copy_chunk_payload,
}
use tiny_s3_proxy.S3.AwsChunked.Decoder.{
  read_trailer, check_trailer, AwsChunkedDecoder, check_previous, check_declared, finalize,
  next_header, data_chunk, decode_loop, new_algo_hasher, decode_to_writer, check_signature,
  read_chunk_header_line, ParsedChunkHeader, panic, with_mode_and_signature_policy,
  empty_sha256_hex, parse_chunk_header, copy_chunk_payload, ChunkSignaturePolicy,
  decoded_length_mismatch, hex_encode_lower, DecodedSummary,
}
use tiny_s3_proxy.Auth.Crypto.{Crypto}
use tiny_s3_proxy.Dict.{is_some}
use tiny_s3_proxy.Prelude.{
  >>=-eq-ok, Bool, Option, Option-cases, arith, false, inl, inr, none, ok, refl, some, true, ◌≡◌,
  ◌≢◌, Bool-cases, Result-cases, ap, err, guard, ok_injective, some_injective, suc, zero, ℕ, ◌++◌,
  ◌==◌,
}
use tiny_s3_proxy.Text.{Bytes}
use tiny_s3_proxy.S3.Checksum.{ChecksumAlgorithm, sha256, crc32, crc32c, crc64nvme, sha1}
use tiny_s3_proxy.S3.AwsChunked.Types.{
  trailer_info, expects_chunk_signature, signed_chunk_algorithm, non_trailer, unsigned_trailer,
  signed_trailer, DecoderMode,
}
use tiny_s3_proxy.S3.AwsChunked.Inbound.{Inbound, expect_crlf}

expects_signed :
    (mode : DecoderMode)
    → expects_chunk_signature mode ≡ true
    → is_some (signed_chunk_algorithm mode) ≡ true
unfolding expects_chunk_signature signed_chunk_algorithm
expects_signed (non_trailer a) h = refl
expects_signed (unsigned_trailer n a) h = h
expects_signed (signed_trailer n a s) h = refl

has_hasher-advance :
    (info : Option (Bytes × ChecksumAlgorithm × Bool)) (fed : Option Bytes) (payload : Bytes)
    → has_hasher info fed ≡ true
    → has_hasher info (elim fed [ none ↦ none | some b ↦ some (b ++ payload) ]) ≡ true
has_hasher-advance none fed payload h = refl
has_hasher-advance (some (_, sha256, _)) fed payload h = refl
has_hasher-advance (some (_, crc32, _)) fed payload h = ground arith
has_hasher-advance (some (_, crc32c, _)) fed payload h = ground arith
has_hasher-advance (some (_, crc64nvme, _)) fed payload h = ground arith
has_hasher-advance (some (_, sha1, _)) fed payload h = ground arith

panics-check_previous : (d : AwsChunkedDecoder) → panics (check_previous d) ≡ false
unfolding check_previous
panics-check_previous d = ground arith

panics-check_declared : (d : AwsChunkedDecoder) (size : ℕ) → panics (check_declared d size) ≡ false
unfolding check_declared
panics-check_declared d size = panics-guard _ _ refl

module _ (crypto : Crypto) where
  panics-finalize :
      (d : AwsChunkedDecoder) (supplied : Option Bytes)
      → has_hasher (trailer_info d.mode) d.algo_hasher ≡ true
      → (is_some (signed_chunk_algorithm d.mode) ≡ true → is_some supplied ≡ true)
      → panics (finalize crypto d supplied) ≡ false
  unfolding finalize
  panics-finalize d supplied fed given =
      let info = trailer_info d.mode in
      panics->>=
        (check_signature crypto (expects_chunk_signature d.mode) d.signature_policy empty_sha256_hex
          supplied d.chunk_index)
        _
        (panics-check_signature crypto (expects_chunk_signature d.mode) d.signature_policy
          empty_sha256_hex supplied d.chunk_index (λ on. given (expects_signed d.mode on)))
        (λ policy h.
          panics->>= (read_trailer crypto (record d { signature_policy = policy }) info) _
            (panics-read_trailer crypto (record d { signature_policy = policy }) info refl)
            (λ trailer k.
              panics->>=
                (guard (d.decoded_len == d.declared_decoded_len)
                  (decoded_length_mismatch d.declared_decoded_len d.decoded_len))
                _ (panics-guard _ _ refl)
                (λ u l.
                  panics->>= (check_trailer crypto d trailer) _
                    (panics-check_trailer crypto d (record d { signature_policy = policy }) info
                      trailer fed k)
                    (λ v m. refl))))

  panics-next_header : (d : AwsChunkedDecoder) → panics (next_header crypto d) ≡ false
  unfolding next_header
  panics-next_header d =
      panics->>= (read_chunk_header_line d.inner) _ (panics-read_chunk_header_line d.inner)
        (λ (line, i) h.
          panics->>= (parse_chunk_header crypto line (signed_chunk_algorithm d.mode)) _
            (panics-parse_chunk_header crypto line (signed_chunk_algorithm d.mode)) (λ a k. refl))

  next_header-signature :
      (d d' : AwsChunkedDecoder) (parsed : ParsedChunkHeader)
      → next_header crypto d ≡ ok (d', parsed)
      → is_some (signed_chunk_algorithm d.mode) ≡ true
      → is_some parsed.signature_hex ≡ true
  unfolding next_header
  next_header-signature d d' parsed h signed = elim (Option-cases (signed_chunk_algorithm d.mode)) [
    | inl e ↦ absurd (cc (signed, e))
    | inr (algorithm, e) ↦
        let ((line, i), _, h1) = >>=-eq-ok (read_chunk_header_line d.inner) _ h in
        let (p, got, h2) =
          >>=-eq-ok (parse_chunk_header crypto line (signed_chunk_algorithm d.mode)) _ h1 in
        let same : p ≡ parsed = ap (λ x. x.1) (ok_injective h2) in
        rw (← same) (parse_chunk_header-signature crypto line algorithm p (rw e at got))
  ]

  module _ (write_all : Bytes → Bytes → Bool) where
    panics-data_chunk :
        (d : AwsChunkedDecoder) (parsed : ParsedChunkHeader)
        → (is_some (signed_chunk_algorithm d.mode) ≡ true → is_some parsed.signature_hex ≡ true)
        → panics (data_chunk crypto write_all d parsed) ≡ false
    unfolding data_chunk
    panics-data_chunk d parsed given =
        panics->>= (check_previous d) _ (panics-check_previous d) (λ u h.
          panics->>= (check_declared d parsed.size) _ (panics-check_declared d parsed.size) (λ v k.
            panics->>= (copy_chunk_payload write_all d.written parsed.size d.inner) _
              (panics-copy_chunk_payload write_all d.written parsed.size d.inner)
              (λ (payload, i) l.
                panics->>=
                  (check_signature crypto (is_some (signed_chunk_algorithm d.mode))
                    d.signature_policy (hex_encode_lower (crypto.sha256 payload))
                    parsed.signature_hex d.chunk_index)
                  _
                  (panics-check_signature crypto (is_some (signed_chunk_algorithm d.mode))
                    d.signature_policy (hex_encode_lower (crypto.sha256 payload))
                    parsed.signature_hex d.chunk_index given)
                  (λ policy m. panics->>= (expect_crlf i) _ (panics-expect_crlf i) (λ j n. refl)))))

    panics-decode_loop :
        (fuel : ℕ) (d : AwsChunkedDecoder)
        → has_hasher (trailer_info d.mode) d.algo_hasher ≡ true
        → (decode_loop crypto write_all fuel d ≢ some (err panic))
    unfolding decode_loop
    panics-decode_loop zero d fed h = cc
    panics-decode_loop (suc fuel) d fed h = elim (Result-cases (next_header crypto d)) [
      | inl (e, bad) ↦ ground (arith, panics-next_header d)
      | inr ((d', parsed), header) ↦
          let (i, state) = next_header-state crypto d d' parsed header in
          let fed' : has_hasher (trailer_info d'.mode) d'.algo_hasher ≡ true = rw (← state) fed in
          let given : is_some (signed_chunk_algorithm d'.mode) ≡ true
              → is_some parsed.signature_hex ≡ true =
            rw (← state) (next_header-signature d d' parsed header) in
          elim (Bool-cases (parsed.size == 0)) [
            | inl last ↦
                let end = some_injective (rw (header, last, decode_loop) at h) in
                let clean =
                  panics->>= {B = DecodedSummary × Bytes} (finalize crypto d' parsed.signature_hex)
                    (λ summary. ok (summary, d'.written))
                    (panics-finalize d' parsed.signature_hex fed' given) (λ a k. refl) in
                cc (clean, end)
            | inr more ↦ elim (Result-cases (data_chunk crypto write_all d' parsed)) [
              | inl (e, bad) ↦ ground (arith, panics-data_chunk d' parsed given)
              | inr (d'', chunk) ↦
                  let a = data_chunk-IsAccepted crypto write_all d' d'' parsed chunk in
                  let kept : has_hasher (trailer_info d''.mode) d''.algo_hasher ≡ true =
                    rw a.state
                      (has_hasher-advance (trailer_info d'.mode) d'.algo_hasher a.payload fed') in
                  panics-decode_loop fuel d'' kept (rw (header, more, chunk, decode_loop) at h)
            ]
          ]
    ]

has_hasher-new :
    (info : Option (Bytes × ChecksumAlgorithm × Bool))
    → has_hasher info (new_algo_hasher info) ≡ true
unfolding new_algo_hasher
has_hasher-new none = refl
has_hasher-new (some (_, sha256, _)) = refl
has_hasher-new (some (_, crc32, _)) = refl
has_hasher-new (some (_, crc32c, _)) = refl
has_hasher-new (some (_, crc64nvme, _)) = refl
has_hasher-new (some (_, sha1, _)) = refl

-- No inbound body makes the decoder panic, in any mode and under any policy: none of its `expect`s
-- meets a missing value, and no `unreachable!` is reached.
pub decode_to_writer-ne-panic :
    (crypto : Crypto) (write_all : Bytes → Bytes → Bool) (inner : Inbound) (declared : ℕ)
    (mode : DecoderMode) (policy : ChunkSignaturePolicy)
    → (decode_to_writer crypto write_all (with_mode_and_signature_policy inner declared mode policy)
        ≢ some (err panic))
unfolding decode_to_writer with_mode_and_signature_policy
decode_to_writer-ne-panic crypto write_all inner declared mode policy =
    panics-decode_loop crypto write_all _ _ (has_hasher-new (trailer_info mode))
