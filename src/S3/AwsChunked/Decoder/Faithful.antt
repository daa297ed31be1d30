-- ===== src/S3/AwsChunked/Decoder/Faithful.antt =====
-- What a successful decoding reports is true of the bytes that it has written
-- (src/s3/aws_chunked.rs).
use tiny_s3_proxy.S3.AwsChunked.Decoder.TrailerCheck.{
  IsTrailerOf, IsConsistent, algo_input, trailer-IsTrailerOf,
}
use tiny_s3_proxy.Text.{Bytes}
use tiny_s3_proxy.Prelude.{
  Bool, Option, arith, length, none, ok, some, ℕ, ◌≡◌, >>=-eq-ok, Result-cases, ap, guard, inl, inr,
  length-append, ok_injective, suc, sym, zero, ◌++◌, ◌==◌, Bool-cases, [], err_ne_ok, refl,
  some_injective,
}
use tiny_s3_proxy.Text.Numbers.{hex_encode_lower}
use mathlib.Core.Path.{subst}
use tiny_s3_proxy.Auth.Crypto.{Crypto}
use tiny_s3_proxy.Auth.SigV4.Streaming.{empty_sha256_hex}
use tiny_s3_proxy.S3.Checksum.{ChecksumAlgorithm, sha256}
use tiny_s3_proxy.S3.AwsChunked.Types.{
  DecoderMode, expects_chunk_signature, signed_chunk_algorithm, trailer_info, DecodedSummary,
  ChunkSignaturePolicy, decoded_length_mismatch,
}
use tiny_s3_proxy.S3.AwsChunked.Inbound.{Inbound, read_chunk_header_line}
use tiny_s3_proxy.S3.AwsChunked.Header.{ParsedChunkHeader, parse_chunk_header}
use tiny_s3_proxy.S3.AwsChunked.Decoder.{
  AwsChunkedDecoder, new_algo_hasher, with_mode_and_signature_policy, check_signature, read_trailer,
  check_trailer, finalize, data_chunk, next_header, decode_loop, decode_to_writer,
}
use tiny_s3_proxy.S3.AwsChunked.Decoder.Progress.{data_chunk-IsAccepted}

pub record IsFaithful (crypto : Crypto) (declared : ℕ) (mode : DecoderMode)
    (summary : DecodedSummary) (body : Bytes) : Type 0 where
  pub length_declared : length body ≡ declared
  pub length_reported : summary.decoded_len ≡ length body
  pub sha256_reported : summary.sha256 ≡ crypto.sha256 body
  pub hex_reported : summary.sha256_hex ≡ hex_encode_lower (crypto.sha256 body)
  pub trailer_reported : IsTrailerOf crypto (trailer_info mode) body summary.trailer

module _ (crypto : Crypto) where
  finalize-IsFaithful :
      (declared : ℕ) (mode : DecoderMode) (d : AwsChunkedDecoder) (sig : Option Bytes)
      (summary : DecodedSummary)
      → IsConsistent declared mode d
      → finalize crypto d sig ≡ ok summary
      → IsFaithful crypto declared mode summary d.written
  unfolding finalize
  finalize-IsFaithful declared mode d sig summary v h =
      let (policy, _, h1) =
        >>=-eq-ok
          (check_signature crypto (expects_chunk_signature d.mode) d.signature_policy
            empty_sha256_hex sig d.chunk_index)
          _ h in
      let (trailer, t, h2) =
        >>=-eq-ok
          (read_trailer crypto (record d { signature_policy = policy }) (trailer_info d.mode)) _
          h1 in
      let (_, g, h3) =
        >>=-eq-ok
          (guard (d.decoded_len == d.declared_decoded_len)
            (decoded_length_mismatch d.declared_decoded_len d.decoded_len))
          _ h2 in
      let (_, c, h4) = >>=-eq-ok (check_trailer crypto d trailer) _ h3 in
      let is = sym (ok_injective h4) in
      let full : d.decoded_len ≡ d.declared_decoded_len = ground arith in
      let mode_of : trailer_info d.mode ≡ trailer_info mode = ap trailer_info v.has_mode in
      rw is (record {
        length_declared = omega (arith, v.counted, v.declares, full);
        length_reported = v.counted;
        sha256_reported = ap crypto.sha256 v.hashed;
        hex_reported = ap (λ b. hex_encode_lower (crypto.sha256 b)) v.hashed;
        trailer_reported =
            trailer-IsTrailerOf crypto d (record d { signature_policy = policy })
              (trailer_info mode) trailer v.hashed v.fed (rw mode_of at t) c;
      })

  algo_input-append :
      (info : Option (Bytes × ChecksumAlgorithm × Bool)) (body payload : Bytes) (fed : Option Bytes)
      → fed ≡ algo_input info body
      → elim fed [ none ↦ none | some b ↦ some (b ++ payload) ] ≡ algo_input info (body ++ payload)
  algo_input-append none body payload fed h = rw h
  algo_input-append (some (_, sha256, _)) body payload fed h = rw h
  algo_input-append (some (_, _, _)) body payload fed h = rw h

  module _ (write_all : Bytes → Bytes → Bool) (declared : ℕ) (mode : DecoderMode) where
    data_chunk-IsConsistent :
        (d d' : AwsChunkedDecoder) (parsed : ParsedChunkHeader)
        → IsConsistent declared mode d
        → data_chunk crypto write_all d parsed ≡ ok d'
        → IsConsistent declared mode d'
    data_chunk-IsConsistent d d' parsed v h =
        let a = data_chunk-IsAccepted crypto write_all d d' parsed h in
        rw a.state (record {
          declares = v.declares;
          has_mode = v.has_mode;
          counted = omega (arith, v.counted, a.size, length-append d.written a.payload);
          hashed = ap (λ b. b ++ a.payload) v.hashed;
          fed = algo_input-append (trailer_info mode) d.written a.payload d.algo_hasher v.fed;
        })

    next_header-IsConsistent :
        (d d' : AwsChunkedDecoder) (parsed : ParsedChunkHeader)
        → IsConsistent declared mode d
        → next_header crypto d ≡ ok (d', parsed)
        → IsConsistent declared mode d'
    unfolding next_header
    next_header-IsConsistent d d' parsed v h =
        let ((header, i), r, h1) = >>=-eq-ok (read_chunk_header_line d.inner) _ h in
        let (p, q, h2) =
          >>=-eq-ok (parse_chunk_header crypto header (signed_chunk_algorithm d.mode)) _ h1 in
        let is : record d { inner = i } ≡ d' = ap (λ x. x.0) (ok_injective h2) in
        subst (IsConsistent declared mode) is (record {
          declares = v.declares;
          has_mode = v.has_mode;
          counted = v.counted;
          hashed = v.hashed;
          fed = v.fed;
        })

    decode_loop-IsFaithful :
        (fuel : ℕ) (d : AwsChunkedDecoder) (summary : DecodedSummary) (body : Bytes)
        → IsConsistent declared mode d
        → decode_loop crypto write_all fuel d ≡ some (ok (summary, body))
        → IsFaithful crypto declared mode summary body
    unfolding decode_loop
    decode_loop-IsFaithful zero d summary body v h = cc
    decode_loop-IsFaithful (suc fuel) d summary body v h =
        elim (Result-cases (next_header crypto d)) [
          | inl (e, bad) ↦ ground arith
          | inr ((d', parsed), header) ↦
              let v' = next_header-IsConsistent d d' parsed v header in
              elim (Bool-cases (parsed.size == 0)) [
                | inl last ↦
                    let end = some_injective (rw (header, last, decode_loop) at h) in
                    let (s, f, same) = >>=-eq-ok (finalize crypto d' parsed.signature_hex) _ end in
                    let pair = ok_injective same in
                    let right = finalize-IsFaithful declared mode d' parsed.signature_hex s v' f in
                    subst (λ x. IsFaithful crypto declared mode x.0 x.1) pair right
                | inr more ↦ elim (Result-cases (data_chunk crypto write_all d' parsed)) [
                  | inl (e, bad) ↦
                      absurd (err_ne_ok (some_injective (rw (header, more, bad, decode_loop) at h)))
                  | inr (d'', chunk) ↦
                      decode_loop-IsFaithful fuel d'' summary body
                        (data_chunk-IsConsistent d' d'' parsed v' chunk)
                        (rw (header, more, chunk, decode_loop) at h)
                ]
              ]
        ]

new_algo_hasher-algo_input :
    (info : Option (Bytes × ChecksumAlgorithm × Bool)) → new_algo_hasher info ≡ algo_input info []
unfolding new_algo_hasher
new_algo_hasher-algo_input none = refl
new_algo_hasher-algo_input (some (_, sha256, _)) = refl
new_algo_hasher-algo_input (some (_, _, _)) = refl

-- A decoding that succeeds has written exactly as many bytes as the request declared, and its
-- summary reports their number and their SHA-256; in a trailer mode the body carried a trailer of
-- the mode's algorithm, and its value is the base64 of the digest of the written bytes.
pub decode_to_writer-IsFaithful :
    (crypto : Crypto) (write_all : Bytes → Bytes → Bool) (inner : Inbound) (declared : ℕ)
    (mode : DecoderMode) (policy : ChunkSignaturePolicy) (summary : DecodedSummary) (body : Bytes)
    → decode_to_writer crypto write_all (with_mode_and_signature_policy inner declared mode policy)
      ≡ some (ok (summary, body))
    → IsFaithful crypto declared mode summary body
unfolding decode_to_writer with_mode_and_signature_policy
decode_to_writer-IsFaithful crypto write_all inner declared mode policy summary body h =
    decode_loop-IsFaithful crypto write_all declared mode _ _ summary body
      (record {
        declares = refl;
        has_mode = refl;
        counted = refl;
        hashed = refl;
        fed = new_algo_hasher-algo_input (trailer_info mode);
      })
      h
