-- ===== src/Handlers/AwsChunked/Handlers.antt =====
-- The two handlers of decoded bodies, up to the backend's answer (src/handlers/aws_chunked.rs,
-- src/backend/models.rs). The purge of the cache and the rendering of the response are not
-- modelled.
use tiny_s3_proxy.Auth.Verified.{VerifiedRequest}
use tiny_s3_proxy.Auth.Crypto.{Crypto}
use tiny_s3_proxy.S3.AwsChunked.Types.{DecodedSummary}
use tiny_s3_proxy.Error.{ProxyError}
use tiny_s3_proxy.S3.Checksum.{ChecksumHeader}
use tiny_s3_proxy.Handlers.AwsChunked.{
  extra_amz_headers_for_decoded, content_headers_for_decoded, ParsedRequest, AwsChunkedError,
  HeaderMap, invalid_argument,
}
use tiny_s3_proxy.Http.{HttpCrates}
use tiny_s3_proxy.Handlers.AwsChunked.Upload.{UploadState, UploadSpool, decoded_upload}
use tiny_s3_proxy.S3.Errors.{S3Error, from_proxy_error}
use tiny_s3_proxy.Text.Numbers.{ℤ, pos, negsuc, to_decimal}
use tiny_s3_proxy.Dict.{Dict}
use tiny_s3_proxy.S3.AwsChunked.Inbound.{Inbound}
use tiny_s3_proxy.Prelude.{
  Bool, Option, Result, err, none, ok, some, ℕ, ◌++◌, if◌then◌else◌, false, leb, suc, ◌&&◌,
}
use tiny_s3_proxy.Text.{Bytes, codes}

pub record PutObjectSpoolInput : Type 0 where
  pub bucket : Bytes
  pub key : Bytes
  pub path : Bytes
  pub len : ℕ
  pub sha256_hex : Bytes
  pub content_type : Option Bytes
  pub content_md5 : Option Bytes
  pub metadata : Dict Bytes
  pub extra_amz_headers : Dict Bytes
  pub content_headers : Dict Bytes
  pub checksum : Option ChecksumHeader

pub record UploadPartSpoolInput : Type 0 where
  pub bucket : Bytes
  pub key : Bytes
  pub upload_id : Bytes
  pub part_number : ℤ
  pub path : Bytes
  pub len : ℕ
  pub sha256_hex : Bytes
  pub content_md5 : Option Bytes
  pub extra_amz_headers : Dict Bytes
  pub checksum : Option ChecksumHeader

-- How a handler ended: before the backend was called, or with its answer.
pub data Outcome (Input Output : Type 0) : Type 0 where
  refused : S3Error → Outcome Input Output
  rejected : Input → S3Error → Outcome Input Output
  stored : Input → Output → Outcome Input Output

abbrev resource_of : UploadState → (key : Bytes) → Bytes
resource_of state key = codes "/" ++ state.frontend_bucket ++ codes "/" ++ key

module _ {Input Output : Type 0} (http : HttpCrates) (state : UploadState) (key request_id : Bytes)
    (backend : Input → Result ProxyError Output) where
  -- The backend's answer to an input.
  unfoldable pub send : Input → Outcome Input Output
  unfolding from_proxy_error
  send input = elim (backend input) [
    | ok output ↦ stored input output
    | err e ↦ rejected input (from_proxy_error http e request_id (some (resource_of state key)))
  ]

  -- The answer to what the decoding gave; none for a panic.
  unfoldable pub send_decoded :
      (DecodedSummary → Input)
      → Option (Result S3Error (DecodedSummary × Bytes))
      → Option (Outcome Input Output)
  unfolding send
  send_decoded input_of none = none
  send_decoded input_of (some (err e)) = some (refused e)
  send_decoded input_of (some (ok (summary, _))) = some (send (input_of summary))

unfoldable pub put_object_input :
    UploadState → ParsedRequest → (key path : Bytes) → DecodedSummary → PutObjectSpoolInput
unfolding extra_amz_headers_for_decoded content_headers_for_decoded
put_object_input state parsed key path summary = record {
  bucket = state.backend_bucket;
  key = key;
  path = path;
  len = summary.decoded_len;
  sha256_hex = summary.sha256_hex;
  content_type = parsed.content_type;
  content_md5 = parsed.content_md5;
  metadata = parsed.user_metadata;
  extra_amz_headers = extra_amz_headers_for_decoded parsed;
  content_headers = content_headers_for_decoded parsed;
  checksum = summary.trailer;
}

unfoldable pub upload_part_input :
    UploadState
    → ParsedRequest
    → (key upload_id : Bytes) → (part_number : ℤ) → (path : Bytes) → DecodedSummary
    → UploadPartSpoolInput
unfolding extra_amz_headers_for_decoded
upload_part_input state parsed key upload_id part_number path summary = record {
  bucket = state.backend_bucket;
  key = key;
  upload_id = upload_id;
  part_number = part_number;
  path = path;
  len = summary.decoded_len;
  sha256_hex = summary.sha256_hex;
  content_md5 = parsed.content_md5;
  extra_amz_headers = extra_amz_headers_for_decoded parsed;
  checksum = summary.trailer;
}

-- (1..=10000).contains(&part_number)
unfoldable pub is_part_number : ℤ → Bool
is_part_number (pos n) = leb 1 n && leb n 10000
is_part_number (negsuc n) = false

-- {part_number}
unfoldable pub integer_text : ℤ → Bytes
integer_text (pos n) = to_decimal n
integer_text (negsuc n) = codes "-" ++ to_decimal (suc n)

module _ {Output : Type 0} (http : HttpCrates) (crypto : Crypto)
    (to_string : AwsChunkedError → Bytes) (spool : UploadSpool) (state : UploadState)
    (parsed : ParsedRequest) (key : Bytes) (headers : HeaderMap) (verified : Option VerifiedRequest)
    (body : Inbound) where
  unfoldable pub handle_put_decode_aws_chunked :
      (backend : PutObjectSpoolInput → Result ProxyError Output)
      → Option (Outcome PutObjectSpoolInput Output)
  unfolding send_decoded put_object_input decoded_upload
  handle_put_decode_aws_chunked backend =
      send_decoded http state key parsed.request_id backend
        (put_object_input state parsed key spool.path)
        (decoded_upload crypto to_string spool parsed.request_id http state headers verified body)

  unfoldable pub handle_upload_part_decode_aws_chunked :
      (part_number : ℤ)
      → (upload_id : Bytes) → (backend : UploadPartSpoolInput → Result ProxyError Output)
      → Option (Outcome UploadPartSpoolInput Output)
  unfolding send_decoded upload_part_input decoded_upload is_part_number integer_text
  handle_upload_part_decode_aws_chunked part_number upload_id backend =
      let message =
        codes "Part number must be between 1 and 10000, got " ++ integer_text part_number in
      if is_part_number part_number
      then send_decoded http state key parsed.request_id backend
          (upload_part_input state parsed key upload_id part_number spool.path)
          (decoded_upload crypto to_string spool parsed.request_id http state headers verified body)
      else some (refused (invalid_argument message parsed.request_id))
