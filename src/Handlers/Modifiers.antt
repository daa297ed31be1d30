-- ===== src/Handlers/Modifiers.antt =====
-- Which path a request takes: the typed one, the aws-chunked decoder or the raw passthrough
-- (src/handlers/modifiers.rs).
pub mod Routes
pub mod Sentinels
use tiny_s3_proxy.Prelude.{
  Bool, List, Option, String, [], false, if◌then◌else◌, is_empty, none, not, some, true, ◌&&◌, ◌||◌,
  ◌∷◌,
}
use tiny_s3_proxy.Text.{
  Bytes, bytes_eq, codes, eq_ignore_ascii_case, split, split_once, starts_with, trim, uppercase,
}
use tiny_s3_proxy.Dict.{Dict, any_key}
use tiny_s3_proxy.Http.{HttpCrates, HeaderMap, get_first, get_all, has_header, and_then}
use tiny_s3_proxy.Backend.Models.{from_header_value}
use tiny_s3_proxy.S3.Checksum.{from_header_name}
use tiny_s3_proxy.S3.Parse.Headers.{is_one_of}

abbrev pub write_modifying_base : List String
write_modifying_base =
    "x-amz-storage-class" ∷ "x-amz-server-side-encryption"
    ∷ "x-amz-server-side-encryption-aws-kms-key-id" ∷ "x-amz-server-side-encryption-context"
    ∷ "x-amz-server-side-encryption-bucket-key-enabled"
    ∷ "x-amz-server-side-encryption-customer-algorithm"
    ∷ "x-amz-server-side-encryption-customer-key" ∷ "x-amz-server-side-encryption-customer-key-md5"
    ∷ "x-amz-request-payer" ∷ "x-amz-expected-bucket-owner" ∷ "x-amz-bypass-governance-retention"
    ∷ "x-amz-mfa" ∷ "x-amz-tagging" ∷ "x-amz-object-lock-mode"
    ∷ "x-amz-object-lock-retain-until-date" ∷ "x-amz-object-lock-legal-hold"
    ∷ "x-amz-website-redirect-location" ∷ "x-amz-mp-object-size"
    ∷ "x-amz-if-match-last-modified-time" ∷ "x-amz-if-match-size" ∷ "x-amz-if-match-initiated-time"
    ∷ "x-amz-acl" ∷ "x-amz-grant-full-control" ∷ "x-amz-grant-read" ∷ "x-amz-grant-read-acp"
    ∷ "x-amz-grant-write-acp" ∷ "x-amz-write-offset-bytes" ∷ []

abbrev pub multipart_checksum_headers : List String
multipart_checksum_headers =
    "x-amz-checksum-algorithm" ∷ "x-amz-checksum-crc32" ∷ "x-amz-checksum-crc32c"
    ∷ "x-amz-checksum-crc64nvme" ∷ "x-amz-checksum-sha1" ∷ "x-amz-checksum-sha256"
    ∷ "x-amz-checksum-type" ∷ "x-amz-sdk-checksum-algorithm" ∷ []

pub data WriteBodyRoute : Type 0 where
  typed decode_aws_chunked passthrough reject_unsupported_signature : WriteBodyRoute

pub data AwsChunkedUploadMode : Type 0 where
  non_trailer_hmac_sha256 non_trailer_ecdsa_p256 unsigned_trailer : AwsChunkedUploadMode
  signed_trailer_hmac_sha256 signed_trailer_ecdsa_p256 other_streaming : AwsChunkedUploadMode

-- headers.contains_key(name)
unfoldable pub contains : HeaderMap → String → Bool
contains headers name = has_header (codes name) headers

unfoldable pub has_unsupported_http_conditionals : HeaderMap → Bool
has_unsupported_http_conditionals headers =
    contains headers "if-match" || contains headers "if-none-match"

-- Some header's name starts with the text.
unfoldable pub any_name_starts_with : String → HeaderMap → Bool
any_name_starts_with prefix [] = false
any_name_starts_with prefix ((n, v) ∷ headers) =
    starts_with n (codes prefix) || any_name_starts_with prefix headers

-- The candidate of one `x-amz-content-sha256` value, trimmed and in uppercase.
unfoldable pub sentinel_mode :
    (trailer_algo_is_supported : Bool) → Bytes → Option AwsChunkedUploadMode
sentinel_mode supported upper =
    if bytes_eq upper (codes "STREAMING-AWS4-HMAC-SHA256-PAYLOAD")
    then some non_trailer_hmac_sha256
    else if bytes_eq upper (codes "STREAMING-AWS4-ECDSA-P256-SHA256-PAYLOAD")
    then some non_trailer_ecdsa_p256
    else if bytes_eq upper (codes "STREAMING-UNSIGNED-PAYLOAD-TRAILER")
    then some (if supported then unsigned_trailer else other_streaming)
    else if bytes_eq upper (codes "STREAMING-AWS4-HMAC-SHA256-PAYLOAD-TRAILER")
    then some (if supported then signed_trailer_hmac_sha256 else other_streaming)
    else if bytes_eq upper (codes "STREAMING-AWS4-ECDSA-P256-SHA256-PAYLOAD-TRAILER")
    then some (if supported then signed_trailer_ecdsa_p256 else other_streaming)
    else if starts_with upper (codes "STREAMING-")
    then some other_streaming
    else none

unfoldable pub mode_eq : AwsChunkedUploadMode → AwsChunkedUploadMode → Bool
mode_eq non_trailer_hmac_sha256 non_trailer_hmac_sha256 = true
mode_eq non_trailer_ecdsa_p256 non_trailer_ecdsa_p256 = true
mode_eq unsigned_trailer unsigned_trailer = true
mode_eq signed_trailer_hmac_sha256 signed_trailer_hmac_sha256 = true
mode_eq signed_trailer_ecdsa_p256 signed_trailer_ecdsa_p256 = true
mode_eq other_streaming other_streaming = true
mode_eq _ _ = false

-- Two different modes are no mode that the proxy knows.
unfoldable pub join_mode :
    Option AwsChunkedUploadMode → Option AwsChunkedUploadMode → Option AwsChunkedUploadMode
join_mode none candidate = candidate
join_mode (some existing) none = some existing
join_mode (some existing) (some other) =
    if mode_eq existing other then some existing else some other_streaming

unfoldable pub is_trailer_mode : Option AwsChunkedUploadMode → Bool
is_trailer_mode (some unsigned_trailer) = true
is_trailer_mode (some signed_trailer_hmac_sha256) = true
is_trailer_mode (some signed_trailer_ecdsa_p256) = true
is_trailer_mode _ = false

-- Some token of a comma list is `aws-chunked`.
unfoldable pub any_token_aws_chunked : List Bytes → Bool
any_token_aws_chunked [] = false
any_token_aws_chunked (tok ∷ toks) =
    eq_ignore_ascii_case (trim tok) (codes "aws-chunked") || any_token_aws_chunked toks

-- matches!(route, RejectUnsupportedSignature)
abbrev pub is_reject : WriteBodyRoute → Bool
is_reject reject_unsupported_signature = true
is_reject _ = false

abbrev pub is_decode : WriteBodyRoute → Bool
is_decode decode_aws_chunked = true
is_decode _ = false

-- pair.split('=').next()
abbrev before_equals : Bytes → Bytes
before_equals pair = elim (split_once b'=' pair) [ none ↦ pair | some (k, _) ↦ k ]

module _ (http : HttpCrates) where
  unfoldable pub checksum_mode_requires_passthrough : HeaderMap → Bool
  checksum_mode_requires_passthrough headers =
      elim (get_all (codes "x-amz-checksum-mode") headers) [
        | [] ↦ false
        | value ∷ [] ↦ elim (and_then (http.to_str value) from_header_value) [
          | none ↦ true
          | some _ ↦ false
        ]
        | value ∷ other ∷ rest ↦ true
      ]

  unfoldable pub has_unsupported_get_modifiers : HeaderMap → Bool
  unfolding checksum_mode_requires_passthrough any_name_starts_with
  has_unsupported_get_modifiers headers =
      contains headers "range"
      || contains headers "if-match"
      || contains headers "if-none-match"
      || contains headers "if-modified-since"
      || contains headers "if-unmodified-since"
      || contains headers "x-amz-request-payer"
      || contains headers "x-amz-expected-bucket-owner"
      || checksum_mode_requires_passthrough headers
      || any_name_starts_with "x-amz-server-side-encryption-customer-" headers

  unfoldable pub content_encoding_has_aws_chunked : List Bytes → Bool
  unfolding any_token_aws_chunked
  content_encoding_has_aws_chunked [] = false
  content_encoding_has_aws_chunked (value ∷ values) = elim (http.to_str value) [
    | none ↦ content_encoding_has_aws_chunked values
    | some s ↦ any_token_aws_chunked (split b',' s) || content_encoding_has_aws_chunked values
  ]

  -- The loop over the `x-amz-content-sha256` values.
  unfoldable pub fold_modes :
      (supported : Bool) → Option AwsChunkedUploadMode → List Bytes → Option AwsChunkedUploadMode
  fold_modes supported mode [] = mode
  fold_modes supported mode (value ∷ values) = elim (http.to_str value) [
    | none ↦ fold_modes supported mode values
    | some s ↦ elim (is_empty (trim s)) [
      | true ↦ fold_modes supported mode values
      | false ↦
          fold_modes supported (join_mode mode (sentinel_mode supported (uppercase (trim s))))
            values
    ]
  ]

  unfoldable pub trailer_algorithm_supported : HeaderMap → Bool
  trailer_algorithm_supported headers =
      elim (and_then (get_first (codes "x-amz-trailer") headers) http.to_str) [
        | none ↦ false
        | some s ↦ elim (from_header_name (trim s)) [ none ↦ false | some _ ↦ true ]
      ]

  unfoldable pub observed_mode : HeaderMap → Option AwsChunkedUploadMode
  observed_mode headers =
      fold_modes (trailer_algorithm_supported headers) none
        (get_all (codes "x-amz-content-sha256") headers)

  unfoldable pub classify_aws_chunked_upload : HeaderMap → Option AwsChunkedUploadMode
  classify_aws_chunked_upload headers =
      let mode = observed_mode headers in
      if contains headers "x-amz-trailer" && not (is_trailer_mode mode)
      then some other_streaming
      else elim mode [
        | some m ↦ some m
        | none ↦
            if content_encoding_has_aws_chunked (get_all (codes "content-encoding") headers)
              || contains headers "x-amz-decoded-content-length"
            then some other_streaming
            else none
      ]

  unfoldable pub aws_chunked_route_for : HeaderMap → WriteBodyRoute
  aws_chunked_route_for headers = elim (classify_aws_chunked_upload headers) [
    | none ↦ typed
    | some other_streaming ↦ passthrough
    | some _ ↦ decode_aws_chunked
  ]

  unfoldable pub classify_put_body_route : Dict Bytes → HeaderMap → WriteBodyRoute
  classify_put_body_route extra_amz headers =
      let aws_chunked = aws_chunked_route_for headers in
      if is_reject aws_chunked
      then reject_unsupported_signature
      else if has_unsupported_http_conditionals headers
      then passthrough
      else if any_key (is_one_of write_modifying_base) extra_amz
      then passthrough
      else aws_chunked

  unfoldable pub classify_upload_part_body_route : Dict Bytes → HeaderMap → WriteBodyRoute
  classify_upload_part_body_route extra_amz headers =
      let aws_chunked = aws_chunked_route_for headers in
      if is_reject aws_chunked
      then reject_unsupported_signature
      else if has_unsupported_http_conditionals headers
      then passthrough
      else if any_key (is_one_of write_modifying_base) extra_amz
      then passthrough
      else if is_decode aws_chunked
      then decode_aws_chunked
      else if any_key (is_one_of multipart_checksum_headers) extra_amz
      then passthrough
      else aws_chunked

  unfoldable pub has_s3_streaming_upload_indicators : HeaderMap → Bool
  has_s3_streaming_upload_indicators headers = elim (classify_aws_chunked_upload headers) [
    | none ↦ false
    | some _ ↦ true
  ]

  unfoldable pub has_unsupported_write_modifiers : Dict Bytes → HeaderMap → Bool
  has_unsupported_write_modifiers extra_amz headers =
      if has_unsupported_http_conditionals headers
      then true
      else if has_s3_streaming_upload_indicators headers
      then true
      else any_key (is_one_of write_modifying_base) extra_amz

  unfoldable pub has_unsupported_multipart_modifiers : Dict Bytes → HeaderMap → Bool
  has_unsupported_multipart_modifiers extra_amz headers =
      if has_unsupported_http_conditionals headers
      then true
      else if has_s3_streaming_upload_indicators headers
      then true
      else any_key (λ k. is_one_of write_modifying_base k || is_one_of multipart_checksum_headers k)
          extra_amz

  unfoldable pub any_unsupported_list_key : List Bytes → Bool
  any_unsupported_list_key [] = false
  any_unsupported_list_key (pair ∷ pairs) =
      let decoded_key = http.percent_decode (before_equals pair) in
      (bytes_eq decoded_key (codes "fetch-owner")
        || bytes_eq decoded_key (codes "optional-object-attributes"))
      || any_unsupported_list_key pairs

  unfoldable pub has_unsupported_list_modifiers : Option Bytes → HeaderMap → Bool
  unfolding any_unsupported_list_key
  has_unsupported_list_modifiers query headers =
      if elim query [ none ↦ false | some q ↦ any_unsupported_list_key (split b'&' q) ]
      then true
      else contains headers "x-amz-request-payer" || contains headers "x-amz-expected-bucket-owner"
