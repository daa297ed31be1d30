-- ===== src/S3/AwsChunked/Decoder.antt =====
-- The decoder: chunks until the one of size 0, then the trailers (src/s3/aws_chunked.rs).
pub mod Progress
pub mod TrailerCheck
pub mod Faithful
pub mod Signs
pub mod Signed
pub mod Panics
pub mod TrailerPanics
pub mod NoPanic
use tiny_s3_proxy.Prelude.{
  Bool, Option, Result, [], err, false, guard, length, ltb, min, none, not, ok, some, suc, true,
  zero, ℕ, ◌++◌, ◌+◌, ◌-◌, ◌==◌, ◌>>=◌, ◌>>◌, ◌^◌, ◌∷◌,
}
use tiny_s3_proxy.Text.{Bytes, bytes_eq, lowercase}
use tiny_s3_proxy.Text.Numbers.{hex_encode_lower}
use tiny_s3_proxy.Auth.Crypto.{Crypto}
use tiny_s3_proxy.Dict.{is_some}
use tiny_s3_proxy.Auth.SigV4.Streaming
use tiny_s3_proxy.Auth.SigV4.Streaming.{
  StreamingError, StreamingSigV4Context, empty_sha256_hex, trailer_signature_mismatch,
  invalid_signature_hex,
}
use tiny_s3_proxy.Auth.SigV4a.Streaming as EcdsaStreaming
use tiny_s3_proxy.Auth.SigV4a.Streaming.{StreamingSigV4aContext}
use tiny_s3_proxy.S3.Checksum.{ChecksumAlgorithm, ChecksumHeader}
use tiny_s3_proxy.S3.AwsChunked.Types.{
  DecoderMode, expects_chunk_signature, signed_chunk_algorithm, trailer_info, DecodedSummary,
  AwsChunkedError, malformed_frame, signature_not_hex, invalid_chunk_size, decoded_length_mismatch,
  decoded_length_exceeded, invalid_trailer_checksum, trailer_checksum_mismatch,
  invalid_trailer_signature, chunk_signature_mismatch, panic, ChunkSignaturePolicy, shape_only,
  verify_hmac, verify_ecdsa, min_non_final_chunk_bytes,
}
use tiny_s3_proxy.S3.AwsChunked.Inbound.{
  bytes, Inbound, read_chunk_header_line, copy_chunk_payload, expect_crlf, expect_eof,
}
use tiny_s3_proxy.S3.AwsChunked.Header.{ParsedChunkHeader, parse_chunk_header}
use tiny_s3_proxy.S3.AwsChunked.Trailer.{
  read_and_validate_trailer, read_and_validate_trailer_signature,
}

-- `hasher` and `algo_hasher` are the bytes that the hashers were given, and `written` those that
-- the writer was.
pub record AwsChunkedDecoder : Type 0 where
  pub inner : Inbound
  pub declared_decoded_len : ℕ
  pub decoded_len : ℕ
  pub hasher : Bytes
  pub chunk_index : ℕ
  pub previous_data_chunk_size : Option ℕ
  pub mode : DecoderMode
  pub algo_hasher : Option Bytes
  pub signature_policy : ChunkSignaturePolicy
  pub written : Bytes

-- A side-channel hasher for every trailer algorithm but SHA-256.
unfoldable pub new_algo_hasher : Option (Bytes × ChecksumAlgorithm × Bool) → Option Bytes
new_algo_hasher none = none
new_algo_hasher (some (_, ChecksumAlgorithm.sha256, _)) = none
new_algo_hasher (some (_, _, _)) = some []

unfoldable pub with_mode_and_signature_policy :
    Inbound → ℕ → DecoderMode → ChunkSignaturePolicy → AwsChunkedDecoder
unfolding new_algo_hasher trailer_info
with_mode_and_signature_policy inner declared_decoded_len mode signature_policy = record {
  inner = inner;
  declared_decoded_len = declared_decoded_len;
  decoded_len = 0;
  hasher = [];
  chunk_index = 0;
  previous_data_chunk_size = none;
  mode = mode;
  algo_hasher = new_algo_hasher (trailer_info mode);
  signature_policy = signature_policy;
  written = [];
}

-- The errors of a signature context, for a chunk and for the trailer.
unfoldable pub chunk_error : ℕ → StreamingError → AwsChunkedError
chunk_error chunk_index StreamingError.chunk_signature_mismatch =
    chunk_signature_mismatch chunk_index
chunk_error chunk_index (invalid_signature_hex _) = malformed_frame signature_not_hex
chunk_error chunk_index trailer_signature_mismatch = panic

unfoldable pub trailer_error : StreamingError → AwsChunkedError
trailer_error trailer_signature_mismatch = AwsChunkedError.trailer_signature_mismatch
trailer_error (invalid_signature_hex _) = invalid_trailer_signature
trailer_error StreamingError.chunk_signature_mismatch = panic

abbrev pub with_error {ℓ} : {E E' A : Type ℓ} → (E → E') → Result E A → Result E' A
with_error f (ok a) = ok a
with_error f (err e) = err (f e)

-- saturating_add on u64
unfoldable pub saturating_add : ℕ → ℕ → ℕ
saturating_add a b = min (a + b) (2 ^ 64 - 1)

-- The chunk before a further data chunk has the minimum size.
unfoldable pub check_previous : AwsChunkedDecoder → Result AwsChunkedError (Unit {0})
check_previous d = elim d.previous_data_chunk_size [
  | none ↦ ok tt
  | some prev ↦
      guard (not (ltb prev min_non_final_chunk_bytes))
        (invalid_chunk_size (d.chunk_index - 1) prev min_non_final_chunk_bytes)
]

unfoldable pub check_declared : AwsChunkedDecoder → ℕ → Result AwsChunkedError (Unit {0})
unfolding saturating_add
check_declared d chunk_size =
    let attempted = saturating_add d.decoded_len chunk_size in
    guard (not (ltb d.declared_decoded_len attempted))
      (decoded_length_exceeded d.declared_decoded_len attempted)

-- What the canonical trailer signature covers: `<lowercase-name>:<value>\n`.
unfoldable pub canonical_trailer : ChecksumHeader → Bytes
canonical_trailer parsed = lowercase parsed.name ++ b':' ∷ (parsed.value ++ b'\n' ∷ [])

-- The state behind a data chunk. The u64 sum of the lengths cannot wrap around where the declared
-- length is below 2^64 - 1: `check_declared` has refused a sum above the declared length.
abbrev pub advance :
    AwsChunkedDecoder → Inbound → ℕ → Bytes → ChunkSignaturePolicy → AwsChunkedDecoder
advance d inner chunk_size payload policy = record d {
  inner = inner;
  decoded_len = d.decoded_len + chunk_size;
  hasher = d.hasher ++ payload;
  chunk_index = d.chunk_index + 1;
  previous_data_chunk_size = some chunk_size;
  algo_hasher = elim d.algo_hasher [ none ↦ none | some fed ↦ some (fed ++ payload) ];
  signature_policy = policy;
  written = d.written ++ payload;
}

module _ (crypto : Crypto) where
  -- The policy that follows a verified chunk: its context has moved on.
  unfoldable pub verify_chunk :
      ChunkSignaturePolicy
      → (chunk_sha_hex supplied : Bytes) → (chunk_index : ℕ)
      → Result AwsChunkedError ChunkSignaturePolicy
  unfolding chunk_error
  verify_chunk shape_only chunk_sha_hex supplied chunk_index = ok shape_only
  verify_chunk (verify_hmac ctx) chunk_sha_hex supplied chunk_index = do
    ctx' ←
        with_error (chunk_error chunk_index)
          (Streaming.verify_payload_chunk crypto ctx chunk_sha_hex supplied)
    ok (verify_hmac ctx')
  verify_chunk (verify_ecdsa ctx) chunk_sha_hex supplied chunk_index = do
    ctx' ←
        with_error (chunk_error chunk_index)
          (EcdsaStreaming.verify_payload_chunk crypto ctx chunk_sha_hex supplied)
    ok (verify_ecdsa ctx')

  unfoldable pub verify_trailer_signature :
      ChunkSignaturePolicy → (canonical sig : Bytes) → Result AwsChunkedError (Unit {0})
  unfolding trailer_error
  verify_trailer_signature shape_only canonical sig = ok tt
  verify_trailer_signature (verify_hmac ctx) canonical sig =
      with_error trailer_error (Streaming.verify_trailer crypto ctx canonical sig)
  verify_trailer_signature (verify_ecdsa ctx) canonical sig =
      with_error trailer_error (EcdsaStreaming.verify_trailer crypto ctx canonical sig)

  -- The signature of a chunk is looked at only where the mode has one.
  unfoldable pub check_signature :
      (expects_signature : Bool)
      → ChunkSignaturePolicy
      → (chunk_sha_hex : Bytes) → (supplied : Option Bytes) → (chunk_index : ℕ)
      → Result AwsChunkedError ChunkSignaturePolicy
  check_signature false policy chunk_sha_hex supplied chunk_index = ok policy
  check_signature true policy chunk_sha_hex none chunk_index = err panic
  check_signature true policy chunk_sha_hex (some sig) chunk_index =
      verify_chunk policy chunk_sha_hex sig chunk_index

  -- The signature line of a signed trailer.
  unfoldable pub finish_trailer :
      AwsChunkedDecoder
      → ChecksumHeader
      → (signed : Bool) → Inbound
      → Result AwsChunkedError Inbound
  unfolding canonical_trailer
  finish_trailer d parsed false i = ok i
  finish_trailer d parsed true i = elim (signed_chunk_algorithm d.mode) [
    | none ↦ err panic
    | some algorithm ↦ do
      (trailer_sig, i') ← read_and_validate_trailer_signature crypto algorithm i
      verify_trailer_signature d.signature_policy (canonical_trailer parsed) trailer_sig
      ok i'
  ]

  unfoldable pub read_trailer :
      AwsChunkedDecoder
      → Option (Bytes × ChecksumAlgorithm × Bool)
      → Result AwsChunkedError (Option ChecksumHeader)
  read_trailer d none = do i ← expect_crlf d.inner; expect_eof i; ok none
  read_trailer d (some (expected_name, algorithm, signed)) = do
    (parsed, i) ← read_and_validate_trailer crypto expected_name algorithm d.inner
    i' ← finish_trailer d parsed signed i
    i'' ← expect_crlf i'
    expect_eof i''
    ok (some parsed)

  unfoldable pub computed_checksum :
      AwsChunkedDecoder → ChecksumAlgorithm → Result AwsChunkedError Bytes
  computed_checksum d ChecksumAlgorithm.sha256 = ok (crypto.sha256 d.hasher)
  computed_checksum d algorithm = elim d.algo_hasher [
    | none ↦ err panic
    | some fed ↦ ok (crypto.checksum algorithm fed)
  ]

  -- The declared checksum against the computed one.
  unfoldable pub check_trailer :
      AwsChunkedDecoder → Option ChecksumHeader → Result AwsChunkedError (Unit {0})
  check_trailer d none = ok tt
  check_trailer d (some header) = elim (crypto.base64_decode header.value) [
    | none ↦ err invalid_trailer_checksum
    | some expected ↦ do
      computed ← computed_checksum d header.algorithm
      guard (bytes_eq computed expected) (trailer_checksum_mismatch header.name)
  ]

  unfoldable pub finalize : AwsChunkedDecoder → Option Bytes → Result AwsChunkedError DecodedSummary
  finalize d zero_chunk_signature = do
    policy ←
        check_signature (expects_chunk_signature d.mode) d.signature_policy empty_sha256_hex
          zero_chunk_signature d.chunk_index
    trailer ← read_trailer (record d { signature_policy = policy }) (trailer_info d.mode)
    guard (d.decoded_len == d.declared_decoded_len)
        (decoded_length_mismatch d.declared_decoded_len d.decoded_len)
    check_trailer d trailer
    let sha256 = crypto.sha256 d.hasher
    ok (record {
      decoded_len = d.decoded_len;
      sha256 = sha256;
      sha256_hex = hex_encode_lower sha256;
      trailer = trailer;
    })

  -- The next header, and the state whose inbound body is behind it.
  unfoldable pub next_header :
      AwsChunkedDecoder → Result AwsChunkedError (AwsChunkedDecoder × ParsedChunkHeader)
  next_header d = do
    (header, i) ← read_chunk_header_line d.inner
    parsed ← parse_chunk_header crypto header (signed_chunk_algorithm d.mode)
    ok (record d { inner = i }, parsed)

  module _ (write_all : Bytes → Bytes → Bool) where
    -- One data chunk: everything between its header and the next one.
    unfoldable pub data_chunk :
        AwsChunkedDecoder → ParsedChunkHeader → Result AwsChunkedError AwsChunkedDecoder
    data_chunk d parsed = do
      check_previous d
      check_declared d parsed.size
      (payload, i) ← copy_chunk_payload write_all d.written parsed.size d.inner
      policy ←
          check_signature (is_some (signed_chunk_algorithm d.mode)) d.signature_policy
            (hex_encode_lower (crypto.sha256 payload)) parsed.signature_hex d.chunk_index
      i' ← expect_crlf i
      ok (advance d i' parsed.size payload policy)

    -- `none`: out of fuel. The bytes that were written come with the summary.
    unfoldable pub decode_loop :
        (fuel : ℕ) → AwsChunkedDecoder → Option (Result AwsChunkedError (DecodedSummary × Bytes))
    decode_loop zero d = none
    decode_loop (suc fuel) d = elim (next_header d) [
      | err e ↦ some (err e)
      | ok (d', parsed) ↦ elim (parsed.size == 0) [
        | true ↦ some (do summary ← finalize d' parsed.signature_hex; ok (summary, d'.written))
        | false ↦ elim (data_chunk d' parsed) [
          | err e ↦ some (err e)
          | ok d'' ↦ decode_loop fuel d''
        ]
      ]
    ]

    -- A chunk takes a byte of the body or more, so the body's length is fuel enough.
    unfoldable pub decode_to_writer :
        AwsChunkedDecoder → Option (Result AwsChunkedError (DecodedSummary × Bytes))
    decode_to_writer d = decode_loop (suc (length (bytes d.inner))) d
