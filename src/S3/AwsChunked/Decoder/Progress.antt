-- ===== src/S3/AwsChunked/Decoder/Progress.antt =====
-- The decoding loop ends: each round takes bytes of the body (src/s3/aws_chunked.rs).
use tiny_s3_proxy.Text.{Bytes}
use tiny_s3_proxy.Prelude.{
  >>=-eq-ok, Bool, ap, arith, length, length-append, ok, ℕ, ◌++◌, ◌<◌, ◌∷◌, ◌≡◌, ◌∙◌, Bool-cases,
  Result, Result-cases, err, inl, inr, ok_injective, some, suc, sym, zero, ◌==◌, ◌>>=◌,
}
use tiny_s3_proxy.Auth.Crypto.{Crypto}
use tiny_s3_proxy.Dict.{is_some}
use tiny_s3_proxy.S3.AwsChunked.Types.{AwsChunkedError, signed_chunk_algorithm, DecodedSummary}
use tiny_s3_proxy.S3.AwsChunked.Inbound.{
  Inbound, bytes, copy_chunk_payload, read_chunk_header_line, expect_crlf,
}
use tiny_s3_proxy.S3.AwsChunked.Inbound.Consumes.{
  read_chunk_header_line-append, copy_chunk_payload-append, expect_crlf-append,
}
use tiny_s3_proxy.Text.Numbers.{hex_encode_lower}
use tiny_s3_proxy.S3.AwsChunked.Header.{ParsedChunkHeader, parse_chunk_header}
use tiny_s3_proxy.S3.AwsChunked.Decoder.{
  AwsChunkedDecoder, check_previous, check_declared, check_signature, next_header, data_chunk,
  finalize, decode_loop, decode_to_writer, advance, ChunkSignaturePolicy,
}

-- What is left of the body.
abbrev pub left : AwsChunkedDecoder → ℕ
left d = length (bytes d.inner)

module _ (crypto : Crypto) where
  next_header-left :
      (d d' : AwsChunkedDecoder) (parsed : ParsedChunkHeader)
      → next_header crypto d ≡ ok (d', parsed)
      → left d' < left d
  unfolding next_header
  next_header-left d d' parsed h =
      let ((header, i), r, h') = >>=-eq-ok (read_chunk_header_line d.inner) _ h in
      let (p, q, h'') =
        >>=-eq-ok (parse_chunk_header crypto header (signed_chunk_algorithm d.mode)) _ h' in
      let inner : i ≡ d'.inner = ground arith in
      rw (← inner) (
        omega (
          arith,
          ap length (read_chunk_header_line-append d.inner header i r),
          length-append header (b'\r' ∷ b'\n' ∷ bytes i),
        ))

  module _ (write_all : Bytes → Bytes → Bool) where
    -- What a data chunk has done, when it is accepted.
    pub record IsAccepted (d d' : AwsChunkedDecoder) (parsed : ParsedChunkHeader) : Type 0 where
      pub payload : Bytes
      pub rest : Inbound
      pub policy : ChunkSignaturePolicy
      pub previous : check_previous d ≡ ok tt
      pub declared : check_declared d parsed.size ≡ ok tt
      pub size : length payload ≡ parsed.size
      pub body : bytes d.inner ≡ payload ++ b'\r' ∷ b'\n' ∷ bytes rest
      pub verified :
          check_signature crypto
            (is_some (signed_chunk_algorithm d.mode))
            d.signature_policy
            (hex_encode_lower (crypto.sha256 payload))
            parsed.signature_hex
            d.chunk_index
          ≡ ok policy
      pub state : d' ≡ advance d rest parsed.size payload policy

    pub data_chunk-IsAccepted :
        (d d' : AwsChunkedDecoder) (parsed : ParsedChunkHeader)
        → data_chunk crypto write_all d parsed ≡ ok d'
        → IsAccepted d d' parsed
    unfolding data_chunk
    data_chunk-IsAccepted d d' parsed h =
        let (_, previous, h1) = >>=-eq-ok (check_previous d) _ h in
        let (_, declared, h2) = >>=-eq-ok (check_declared d parsed.size) _ h1 in
        let ((payload, i), copied, h3) =
          >>=-eq-ok (copy_chunk_payload write_all d.written parsed.size d.inner) _ h2 in
        let (policy, verified, h4) =
          >>=-eq-ok
            (check_signature crypto (is_some (signed_chunk_algorithm d.mode)) d.signature_policy
              (hex_encode_lower (crypto.sha256 payload)) parsed.signature_hex d.chunk_index)
            _ h3 in
        let (i', closed, h5) = >>=-eq-ok (expect_crlf i) _ h4 in
        let (same, size) =
          copy_chunk_payload-append write_all d.written parsed.size d.inner payload i copied in
        record {
          payload = payload;
          rest = i';
          policy = policy;
          previous = previous;
          declared = declared;
          size = size;
          body = same ∙ ap (λ t. payload ++ t) (expect_crlf-append i i' closed);
          verified = verified;
          state = sym (ok_injective h5);
        }

    data_chunk-left :
        (d d' : AwsChunkedDecoder) (parsed : ParsedChunkHeader)
        → data_chunk crypto write_all d parsed ≡ ok d'
        → left d' < left d
    data_chunk-left d d' parsed h =
        let a = data_chunk-IsAccepted d d' parsed h in
        rw a.state
          (omega (arith, ap length a.body, length-append a.payload (b'\r' ∷ b'\n' ∷ bytes a.rest)))

    decode_loop_total :
        (fuel : ℕ) (d : AwsChunkedDecoder)
        → left d < fuel
        → (r : Result AwsChunkedError (DecodedSummary × Bytes)) × (decode_loop crypto write_all fuel
              d
            ≡ some r)
    unfolding decode_loop
    decode_loop_total zero d h = absurd (omega arith)
    decode_loop_total (suc fuel) d h = elim (Result-cases (next_header crypto d)) [
      | inl (e, bad) ↦ (err e, rw (bad, decode_loop))
      | inr ((d', parsed), header) ↦ elim (Bool-cases (parsed.size == 0)) [
        | inl last ↦ (
          ◌>>=◌ (finalize crypto d' parsed.signature_hex) (λ summary. ok (summary, d'.written)),
          rw (header, last, decode_loop),
        )
        | inr more ↦ elim (Result-cases (data_chunk crypto write_all d' parsed)) [
          | inl (e, bad) ↦ (err e, rw (header, more, bad, decode_loop))
          | inr (d'', chunk) ↦
              let smaller : left d' < left d = next_header-left d d' parsed header in
              let smallest : left d'' < left d' = data_chunk-left d' d'' parsed chunk in
              rw (header, more, chunk, decode_loop) (decode_loop_total fuel d'' (omega arith))
        ]
      ]
    ]

-- For every inbound body, in whatever batches it arrives and whatever the mode, the policy, the
-- cryptographic crates and the writer do, decoding ends with a summary or an error: the fuel of
-- `decode_to_writer` is enough.
pub decode_to_writer_total :
    (crypto : Crypto) (write_all : Bytes → Bytes → Bool) (d : AwsChunkedDecoder)
    → (r : Result AwsChunkedError (DecodedSummary × Bytes)) × (decode_to_writer crypto write_all d
        ≡ some r)
unfolding decode_to_writer
decode_to_writer_total crypto write_all d =
    decode_loop_total crypto write_all (suc (left d)) d (omega arith)
