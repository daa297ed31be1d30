-- ===== src/Handlers/AwsChunked.antt =====
-- What the aws-chunked handlers do before and after the decoder (src/handlers/aws_chunked.rs). The
-- text of a decoder's error, `to_string`, is made by a derive macro and is a parameter.
pub mod Mode
pub mod Agree
pub mod Policy
pub mod Upload
pub mod Handlers
pub mod Uploaded
pub mod Handed
pub mod Refused
pub mod Answered
pub mod Strict
mod Tests
use tiny_s3_proxy.Prelude.{
  Bool, List, Option, Result, [], err, if◌then◌else◌, is_empty, none, ok, some, ℕ, ◌++◌, ◌==◌, ◌||◌,
  ◌∷◌, ◌^◌,
}
use tiny_s3_proxy.Text.{Bytes, bytes_eq, codes, eq_ignore_ascii_case, split, trim}
use tiny_s3_proxy.Text.Numbers.{dec_digit, unsigned}
use tiny_s3_proxy.Dict.{Dict}
use tiny_s3_proxy.Dict as Dict
use tiny_s3_proxy.Http.{HeaderMap, HttpCrates, get_all}
use tiny_s3_proxy.S3.AwsChunked.Types.{
  AwsChunkedError, chunk_header_too_large, chunk_signature_mismatch, decoded_length_exceeded,
  decoded_length_mismatch, inbound_io, invalid_chunk_size, invalid_trailer,
  invalid_trailer_checksum, invalid_trailer_signature, malformed_frame, missing_trailer, panic,
  spool_io, trailer_checksum_mismatch, trailer_signature_mismatch, trailing_data, truncated,
}
use tiny_s3_proxy.S3.Errors.{
  S3Error, bad_digest, bad_request, entity_too_large, incomplete_body, internal_error,
  invalid_argument, invalid_digest, signature_does_not_match,
}
use tiny_s3_proxy.S3.Errors as Errors
use tiny_s3_proxy.S3.Ops.{ParsedRequest}

-- Exactly one value, in visible ASCII.
unfoldable pub single_value :
    HttpCrates
    → (name : Bytes) → HeaderMap
    → (missing several not_ascii : S3Error) → Result S3Error Bytes
single_value http name headers missing several not_ascii = elim (get_all name headers) [
  | [] ↦ err missing
  | raw ∷ [] ↦ elim (http.to_str raw) [ none ↦ err not_ascii | some s ↦ ok s ]
  | raw ∷ other ∷ rest ↦ err several
]

-- s.parse::<u64>()
unfoldable pub parse_u64 : Bytes → Option ℕ
unfolding unsigned dec_digit
parse_u64 [] = none
parse_u64 (c ∷ s) =
    if c == b'+' then unsigned dec_digit 10 (2 ^ 64) s else unsigned dec_digit 10 (2 ^ 64) (c ∷ s)

-- The tokens of a list header that survive.
unfoldable pub surviving_tokens : List Bytes → List Bytes
surviving_tokens [] = []
surviving_tokens (tok ∷ toks) =
    let t = trim tok in
    let rest = surviving_tokens toks in
    if eq_ignore_ascii_case t (codes "aws-chunked") || is_empty t then rest else t ∷ rest

-- tokens.join(", ")
unfoldable pub join_tokens : List Bytes → Bytes
join_tokens [] = []
join_tokens (tok ∷ []) = tok
join_tokens (tok ∷ next ∷ toks) = tok ++ codes ", " ++ join_tokens (next ∷ toks)

unfoldable pub content_encoding_without_aws_chunked : Bytes → Option Bytes
unfolding surviving_tokens join_tokens
content_encoding_without_aws_chunked value =
    let surviving = surviving_tokens (split b',' value) in
    if is_empty surviving then none else some (join_tokens surviving)

-- m.remove(k), of a map with one entry for each key
unfoldable pub remove_key : {V : Type 0} → Bytes → Dict V → Dict V
remove_key k [] = []
remove_key k ((j, v) ∷ m) =
    let rest = remove_key k m in if bytes_eq j k then rest else (j, v) ∷ rest

unfoldable pub content_headers_for_decoded : ParsedRequest → Dict Bytes
unfolding content_encoding_without_aws_chunked remove_key Dict.get Dict.insert
content_headers_for_decoded parsed =
    let name = codes "content-encoding" in
    let others = remove_key name parsed.content_headers in
    elim (Dict.get name parsed.content_headers) [
      | none ↦ others
      | some ce ↦ elim (content_encoding_without_aws_chunked ce) [
        | none ↦ others
        | some stripped ↦ Dict.insert name stripped others
      ]
    ]

unfoldable pub is_streaming_only_amz_header : Bytes → Bool
is_streaming_only_amz_header name =
    eq_ignore_ascii_case name (codes "x-amz-content-sha256")
    || eq_ignore_ascii_case name (codes "x-amz-decoded-content-length")
    || eq_ignore_ascii_case name (codes "x-amz-trailer")
    || eq_ignore_ascii_case name (codes "x-amz-sdk-checksum-algorithm")

unfoldable pub without_streaming_only : Dict Bytes → Dict Bytes
unfolding is_streaming_only_amz_header
without_streaming_only [] = []
without_streaming_only ((k, v) ∷ m) =
    let rest = without_streaming_only m in
    if is_streaming_only_amz_header k then rest else (k, v) ∷ rest

unfoldable pub extra_amz_headers_for_decoded : ParsedRequest → Dict Bytes
unfolding without_streaming_only
extra_amz_headers_for_decoded parsed = without_streaming_only parsed.extra_amz_headers

unfoldable pub map_decode_error :
    (to_string : AwsChunkedError → Bytes) → AwsChunkedError → (request_id : Bytes) → Option S3Error
map_decode_error to_string e request_id =
    let text = to_string e in
    elim e [
      | invalid_chunk_size _ _ _ ↦ some (Errors.invalid_chunk_size text request_id)
      | inbound_io ↦ some (incomplete_body text request_id)
      | spool_io ↦ some (internal_error (codes "aws-chunked decode I/O error: " ++ text) request_id)
      | malformed_frame _ ↦ some (incomplete_body text request_id)
      | decoded_length_mismatch _ _ ↦ some (incomplete_body text request_id)
      | decoded_length_exceeded _ _ ↦ some (incomplete_body text request_id)
      | truncated ↦ some (incomplete_body text request_id)
      | trailing_data ↦ some (incomplete_body text request_id)
      | chunk_header_too_large ↦ some (incomplete_body text request_id)
      | invalid_trailer ↦ some (bad_request text request_id)
      | missing_trailer _ ↦ some (bad_request text request_id)
      | invalid_trailer_signature ↦ some (bad_request text request_id)
      | invalid_trailer_checksum ↦ some (invalid_digest text request_id)
      | trailer_checksum_mismatch _ ↦ some (bad_digest text request_id)
      | chunk_signature_mismatch _ ↦ some (signature_does_not_match text request_id)
      | trailer_signature_mismatch ↦ some (signature_does_not_match text request_id)
      | panic ↦ none
    ]
