-- ===== src/S3/AwsChunked/Tests.antt =====
-- Runs of the decoder (src/s3/aws_chunked.rs).
use tiny_s3_proxy.S3.AwsChunked.Inbound.Accepts.{
  read_chunk_header_line-accepts, copy_chunk_payload-accepts,
}
use tiny_s3_proxy.S3.AwsChunked.Header.RoundTrip.{parse_chunk_header-to_hex}
use tiny_s3_proxy.Text.Numbers.{to_hex}
use tiny_s3_proxy.S3.AwsChunked.Header.{
  validate_chunk_signature_shape, parse_chunk_header, parse_chunk_size,
}
use tiny_s3_proxy.S3.AwsChunked.Decoder.NoPanic.{decode_to_writer-ne-panic}
use tiny_s3_proxy.S3.AwsChunked.Decoder.Signed.{IsVerified, decode_to_writer-IsVerified}
use tiny_s3_proxy.Dict.{is_some}
use tiny_s3_proxy.S3.AwsChunked.Decoder.Progress.{decode_to_writer_total}
use tiny_s3_proxy.S3.AwsChunked.Decoder.Faithful.{IsFaithful, decode_to_writer-IsFaithful}
use tiny_s3_proxy.S3.AwsChunked.Decoder.{
  AwsChunkedDecoder, decode_to_writer, with_mode_and_signature_policy,
}
use tiny_s3_proxy.S3.AwsChunked.Inbound.{
  Inbound, batch, eof, bytes, read_chunk_header_line, copy_chunk_payload,
}
use tiny_s3_proxy.Auth.Crypto.{Crypto}
use tiny_s3_proxy.Text.{
  Bytes, codes, bytes_eq, contains_byte, eq_ignore_ascii_case, is_utf8, lowercase, split_once, trim,
  strip_prefix,
}
use tiny_s3_proxy.Prelude.{
  Bool, Result, [], drop, ok, refl, some, take, true, ℕ, ◌++◌, ◌∷◌, ◌≡◌, none, err, ◌≢◌, arith,
}
use tiny_s3_proxy.S3.AwsChunked.Types.{
  unsigned_trailer, shape_only, DecoderMode, DecodedSummary, AwsChunkedError, ChunkSignaturePolicy,
  non_trailer, signed_chunk_algorithm, verify_hmac, SignedChunkAlgorithm, panic, malformed_frame,
  size_not_hex,
}
use tiny_s3_proxy.S3.Checksum.{crc32}

-- A stand-in for the cryptographic crates: every digest of a body is the body.
abbrev pub crypto : Crypto
crypto = record {
  sha256 = λ s. s;
  hmac_sha256 = λ k s. s;
  checksum = λ a s. s;
  base64_decode = λ s. some s;
  is_der = λ s. true;
  p256_verify = λ k m s. true;
}

abbrev pub write_all : Bytes → Bytes → Bool
write_all written piece = true

abbrev pub crlf : Bytes
crlf = b'\r' ∷ b'\n' ∷ []

abbrev mode : DecoderMode
mode = unsigned_trailer (codes "x-amz-checksum-crc32") crc32

-- One chunk of four bytes, the last chunk, and the trailer.
abbrev tail : Bytes
tail =
    crlf
    ++ codes "abcd"
    ++ crlf
    ++ codes "0"
    ++ crlf
    ++ codes "x-amz-checksum-crc32:abcd"
    ++ crlf
    ++ crlf

-- It arrives in two batches.
abbrev inbound : Inbound
inbound = batch b'4' (take 5 tail) (batch b'd' (drop 6 tail) eof)

abbrev decoder : ℕ → AwsChunkedDecoder
decoder declared = with_mode_and_signature_policy inbound declared mode shape_only

abbrev pub summary : DecodedSummary
summary = record {
  decoded_len = 4;
  sha256 = codes "abcd";
  sha256_hex = codes "61626364";
  trailer =
      some
        (record { algorithm = crc32; name = codes "x-amz-checksum-crc32"; value = codes "abcd" });
}

decodes :
    decode_to_writer crypto write_all (with_mode_and_signature_policy inbound 4 mode shape_only)
    ≡ some (ok (summary, codes "abcd"))
unfolding decode_to_writer with_mode_and_signature_policy
    tiny_s3_proxy.S3.AwsChunked.Decoder.decode_loop tiny_s3_proxy.S3.AwsChunked.Decoder.next_header
    tiny_s3_proxy.S3.AwsChunked.Inbound.read_chunk_header_line
    tiny_s3_proxy.S3.AwsChunked.Inbound.split_line tiny_s3_proxy.S3.AwsChunked.Inbound.strip_crlf
    tiny_s3_proxy.Text.is_utf8 tiny_s3_proxy.S3.AwsChunked.Header.parse_chunk_header
    tiny_s3_proxy.S3.AwsChunked.Types.signed_chunk_algorithm tiny_s3_proxy.Text.contains_byte
    tiny_s3_proxy.S3.AwsChunked.Header.parse_chunk_size tiny_s3_proxy.Text.Numbers.parse_hex_u64
    tiny_s3_proxy.S3.AwsChunked.Decoder.data_chunk
    tiny_s3_proxy.S3.AwsChunked.Decoder.check_previous
    tiny_s3_proxy.S3.AwsChunked.Decoder.check_declared
    tiny_s3_proxy.S3.AwsChunked.Inbound.copy_chunk_payload
    tiny_s3_proxy.S3.AwsChunked.Inbound.rest_of_batch
    tiny_s3_proxy.S3.AwsChunked.Decoder.check_signature
    tiny_s3_proxy.S3.AwsChunked.Types.expects_chunk_signature
    tiny_s3_proxy.S3.AwsChunked.Inbound.expect_crlf tiny_s3_proxy.S3.AwsChunked.Inbound.bytes
    tiny_s3_proxy.S3.AwsChunked.Decoder.finalize tiny_s3_proxy.S3.AwsChunked.Decoder.read_trailer
    tiny_s3_proxy.S3.AwsChunked.Trailer.read_and_validate_trailer
    tiny_s3_proxy.S3.AwsChunked.Inbound.read_trailer_line tiny_s3_proxy.Text.split_once
    tiny_s3_proxy.Text.eq_ignore_ascii_case tiny_s3_proxy.Text.bytes_eq tiny_s3_proxy.Text.lowercase
    tiny_s3_proxy.Text.trim tiny_s3_proxy.S3.Checksum.digest_len
    tiny_s3_proxy.S3.AwsChunked.Decoder.finish_trailer
    tiny_s3_proxy.S3.AwsChunked.Inbound.expect_eof tiny_s3_proxy.S3.AwsChunked.Decoder.check_trailer
    tiny_s3_proxy.S3.AwsChunked.Decoder.computed_checksum
    tiny_s3_proxy.Text.Numbers.hex_encode_lower tiny_s3_proxy.S3.Checksum.header_name
decodes = refl

decode_to_writer-IsFaithful_example : IsFaithful crypto 4 mode summary (codes "abcd")
decode_to_writer-IsFaithful_example =
    decode_to_writer-IsFaithful crypto write_all inbound 4 mode shape_only summary (codes "abcd")
      decodes

decode_to_writer_total_example :
    (r : Result AwsChunkedError (DecodedSummary × Bytes)) × (decode_to_writer crypto write_all
        (decoder 5)
      ≡ some r)
decode_to_writer_total_example = decode_to_writer_total crypto write_all (decoder 5)

-- The digest of 32 bytes 170 that a stand-in for the HMAC gives, in hexadecimal.
abbrev pub signature : Bytes
signature = codes "aaaaaaaaaaaaaaaaaaaaaaaaaaaaaaaaaaaaaaaaaaaaaaaaaaaaaaaaaaaaaaaa"

abbrev pub eight : Bytes
eight = 170 ∷ 170 ∷ 170 ∷ 170 ∷ 170 ∷ 170 ∷ 170 ∷ 170 ∷ []

abbrev pub signing : Crypto
signing = record crypto { hmac_sha256 = λ k s. eight ++ eight ++ eight ++ eight }

abbrev pub signed_tail : Bytes
signed_tail =
    codes ";chunk-signature="
    ++ signature
    ++ crlf
    ++ codes "abcd"
    ++ crlf
    ++ codes "0;chunk-signature="
    ++ signature
    ++ crlf
    ++ crlf

abbrev pub hmac_policy : ChunkSignaturePolicy
hmac_policy = verify_hmac (record {
  signing_key = [];
  amz_date = codes "20260101T000000Z";
  scope = codes "20260101/us-east-1/s3/aws4_request";
  previous_signature_hex = codes "seed";
})

abbrev pub signed_summary : DecodedSummary
signed_summary = record summary { trailer = none }

pub decodes_signed :
    decode_to_writer signing write_all (
      with_mode_and_signature_policy
        (batch b'4' signed_tail eof)
        4
        (non_trailer SignedChunkAlgorithm.hmac_sha256)
        hmac_policy)
    ≡ some (ok (signed_summary, codes "abcd"))
unfolding decode_to_writer with_mode_and_signature_policy
    tiny_s3_proxy.S3.AwsChunked.Decoder.decode_loop tiny_s3_proxy.S3.AwsChunked.Decoder.next_header
    tiny_s3_proxy.S3.AwsChunked.Inbound.read_chunk_header_line
    tiny_s3_proxy.S3.AwsChunked.Inbound.split_line tiny_s3_proxy.S3.AwsChunked.Inbound.strip_crlf
    tiny_s3_proxy.Text.is_utf8 tiny_s3_proxy.S3.AwsChunked.Header.parse_chunk_header
    tiny_s3_proxy.S3.AwsChunked.Types.signed_chunk_algorithm tiny_s3_proxy.Text.contains_byte
    tiny_s3_proxy.S3.AwsChunked.Header.parse_chunk_size tiny_s3_proxy.Text.Numbers.parse_hex_u64
    tiny_s3_proxy.S3.AwsChunked.Decoder.data_chunk
    tiny_s3_proxy.S3.AwsChunked.Decoder.check_previous
    tiny_s3_proxy.S3.AwsChunked.Decoder.check_declared
    tiny_s3_proxy.S3.AwsChunked.Inbound.copy_chunk_payload
    tiny_s3_proxy.S3.AwsChunked.Inbound.rest_of_batch
    tiny_s3_proxy.S3.AwsChunked.Decoder.check_signature
    tiny_s3_proxy.S3.AwsChunked.Types.expects_chunk_signature
    tiny_s3_proxy.S3.AwsChunked.Inbound.expect_crlf tiny_s3_proxy.S3.AwsChunked.Inbound.bytes
    tiny_s3_proxy.S3.AwsChunked.Decoder.finalize tiny_s3_proxy.S3.AwsChunked.Decoder.read_trailer
    tiny_s3_proxy.S3.AwsChunked.Trailer.read_and_validate_trailer
    tiny_s3_proxy.S3.AwsChunked.Inbound.read_trailer_line tiny_s3_proxy.Text.split_once
    tiny_s3_proxy.Text.eq_ignore_ascii_case tiny_s3_proxy.Text.bytes_eq tiny_s3_proxy.Text.lowercase
    tiny_s3_proxy.Text.trim tiny_s3_proxy.S3.Checksum.digest_len
    tiny_s3_proxy.S3.AwsChunked.Decoder.finish_trailer
    tiny_s3_proxy.S3.AwsChunked.Inbound.expect_eof tiny_s3_proxy.S3.AwsChunked.Decoder.check_trailer
    tiny_s3_proxy.S3.AwsChunked.Decoder.computed_checksum
    tiny_s3_proxy.Text.Numbers.hex_encode_lower tiny_s3_proxy.S3.Checksum.header_name
    tiny_s3_proxy.S3.AwsChunked.Decoder.verify_chunk
    tiny_s3_proxy.Auth.SigV4.Streaming.verify_payload_chunk
    tiny_s3_proxy.Auth.SigV4.Streaming.parse_hex32
    tiny_s3_proxy.S3.AwsChunked.Header.validate_chunk_signature_shape
    tiny_s3_proxy.Text.strip_prefix tiny_s3_proxy.Text.Numbers.is_lower_hex_byte
decodes_signed = refl

has_signatures :
    is_some (signed_chunk_algorithm (non_trailer SignedChunkAlgorithm.hmac_sha256)) ≡ true
unfolding signed_chunk_algorithm
has_signatures = refl

decode_to_writer-IsVerified_example :
    IsVerified signing hmac_policy (bytes (batch b'4' signed_tail eof)) [] (codes "abcd")
decode_to_writer-IsVerified_example =
    decode_to_writer-IsVerified signing write_all (batch b'4' signed_tail eof) 4
      (non_trailer SignedChunkAlgorithm.hmac_sha256) hmac_policy signed_summary (codes "abcd")
      has_signatures decodes_signed

decode_to_writer-ne-panic_example :
    decode_to_writer crypto write_all (with_mode_and_signature_policy inbound 4 mode shape_only)
    ≢ some (err panic)
decode_to_writer-ne-panic_example =
    decode_to_writer-ne-panic crypto write_all inbound 4 mode shape_only

abbrev hmac_algorithm : SignedChunkAlgorithm
hmac_algorithm = SignedChunkAlgorithm.hmac_sha256

has_shape : validate_chunk_signature_shape crypto signature hmac_algorithm ≡ ok tt
unfolding validate_chunk_signature_shape tiny_s3_proxy.Text.Numbers.is_lower_hex_byte
has_shape = refl

parse_chunk_header-to_hex_example :
    (parse_chunk_header crypto (to_hex 65536) none
      ≡ ok (record { size = 65536; signature_hex = none }))
    × (parse_chunk_header crypto
          (to_hex 65536 ++ b';' ∷ (codes "chunk-signature=" ++ signature))
          (some hmac_algorithm)
        ≡ ok (record { size = 65536; signature_hex = some signature }))
parse_chunk_header-to_hex_example =
    parse_chunk_header-to_hex crypto 65536 signature hmac_algorithm (omega arith) has_shape

prints_hex : to_hex 65536 ≡ codes "10000"
unfolding tiny_s3_proxy.Text.Numbers.to_hex_before
prints_hex = refl

-- A header and a payload in two batches each.
abbrev header_in_parts : Inbound
header_in_parts =
    batch b'4' [] (batch b'\r' [] (batch b'\n' (codes "ab") (batch b'c' (codes "d") eof)))

read_chunk_header_line-accepts_example :
    (i' : Inbound) × (read_chunk_header_line header_in_parts ≡ ok (codes "4", i'))
    × (bytes i' ≡ codes "abcd")
unfolding is_utf8 contains_byte bytes
read_chunk_header_line-accepts_example =
    read_chunk_header_line-accepts header_in_parts (codes "4") (codes "abcd") refl refl refl
      (omega arith)

abbrev payload_in_parts : Inbound
payload_in_parts = batch b'a' (codes "b") (batch b'c' (codes "d!") eof)

copy_chunk_payload-accepts_example :
    (i' : Inbound) × (copy_chunk_payload write_all [] 4 payload_in_parts ≡ ok (codes "abcd", i'))
    × (bytes i' ≡ codes "!")
unfolding bytes
copy_chunk_payload-accepts_example =
    copy_chunk_payload-accepts write_all [] (codes "abcd") (codes "!") payload_in_parts
      (λ before piece. refl) refl

-- The sign that `from_str_radix` takes.
plus_sign : parse_chunk_size (codes "+4") ≡ ok 4
unfolding parse_chunk_size tiny_s3_proxy.Text.Numbers.parse_hex_u64
plus_sign = refl

too_large_size : parse_chunk_size (codes "10000000000000000") ≡ err (malformed_frame size_not_hex)
unfolding parse_chunk_size tiny_s3_proxy.Text.Numbers.parse_hex_u64
too_large_size = refl
