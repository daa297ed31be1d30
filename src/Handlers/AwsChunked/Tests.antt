-- ===== src/Handlers/AwsChunked/Tests.antt =====
-- Requests whose bodies are decoded (src/handlers/aws_chunked.rs).
use tiny_s3_proxy.S3.AwsChunked.Inbound.{Inbound, batch, bytes, eof}
use tiny_s3_proxy.S3.AwsChunked.Tests.{
  signing, signed_tail, hmac_policy, signed_summary, decodes_signed, write_all,
}
use tiny_s3_proxy.S3.AwsChunked.Types.{
  DecoderMode, ChunkSignaturePolicy, AwsChunkedError, non_trailer, SignedChunkAlgorithm,
  signed_chunk_algorithm,
}
use tiny_s3_proxy.S3.AwsChunked.Decoder.Signed.{IsVerified}
use tiny_s3_proxy.Auth.Verified.{sigv4, hmac_key, VerifiedRequest}
use tiny_s3_proxy.Handlers.AwsChunked.Mode.{decoder_mode_from_headers}
use tiny_s3_proxy.Handlers.AwsChunked.Upload.{
  decoded_upload, decode_plan, UploadState, UploadSpool, decode_into_spool,
}
use tiny_s3_proxy.Handlers.AwsChunked.Handlers.{
  stored, PutObjectSpoolInput, UploadPartSpoolInput, handle_put_decode_aws_chunked,
  handle_upload_part_decode_aws_chunked,
}
use tiny_s3_proxy.Handlers.AwsChunked.Handed.{
  IsOfBody, put_input-IsOfBody, part_input-IsOfPart, IsOfPart,
}
use tiny_s3_proxy.Handlers.AwsChunked.Answered.{Answers, decoded_upload-Answers}
use tiny_s3_proxy.Handlers.AwsChunked.Strict.{strict_upload-IsVerified}
use tiny_s3_proxy.Handlers.AwsChunked.Agree.{decoder_mode_agrees, upload_mode}
use tiny_s3_proxy.Handlers.AwsChunked.Policy.{SeededBy}
use tiny_s3_proxy.Handlers.Modifiers.{
  aws_chunked_route_for, decode_aws_chunked, classify_aws_chunked_upload,
}
use tiny_s3_proxy.Http.{HttpCrates, HeaderMap, get_all}
use tiny_s3_proxy.S3.Ops.{ParsedRequest, put_object}
use tiny_s3_proxy.Error.{ProxyError}
use tiny_s3_proxy.Text.{Bytes, codes, bytes_eq, trim, uppercase}
use tiny_s3_proxy.Text.Numbers.{pos}
use tiny_s3_proxy.Prelude.{◌≡◌, refl, arith, some, none, ok, Result, true, [], ◌∷◌, inl}

-- Stand-ins for the crates, the spool file and the backend.
abbrev http : HttpCrates
http = record { percent_decode = λ s. s; to_str = λ s. some s; is_status = λ n. true }

abbrev spool : UploadSpool
spool = record {
  path = codes "/cache/tmp/1";
  create_error = none;
  flush_error = none;
  write_all = write_all;
}

abbrev backend : PutObjectSpoolInput → Result ProxyError Bytes
backend input = ok (codes "etag")

abbrev part_backend : UploadPartSpoolInput → Result ProxyError Bytes
part_backend input = ok (codes "etag")

abbrev to_string : AwsChunkedError → Bytes
to_string e = codes "error"

abbrev state : UploadState
state = record {
  backend_bucket = codes "b";
  frontend_bucket = codes "f";
  max_request_body_bytes = 10;
  strict_sigv4 = true;
}

abbrev sentinel : Bytes
sentinel = codes " streaming-AWS4-HMAC-SHA256-PAYLOAD"

abbrev headers : HeaderMap
headers =
    (codes "x-amz-content-sha256", sentinel)
    ∷ (codes "x-amz-decoded-content-length", codes "4")
    ∷ []

abbrev verified_request : VerifiedRequest
verified_request = record {
  access_key_id = codes "id";
  credential_scope = sigv4 (codes "20260101") (codes "us-east-1") (codes "s3");
  signed_headers = [];
  request_signature_hex = codes "seed";
  signing_context = hmac_key [];
  amz_date = codes "20260101T000000Z";
}

abbrev body : Inbound
body = batch b'4' signed_tail eof

abbrev hmac : DecoderMode
hmac = non_trailer SignedChunkAlgorithm.hmac_sha256

abbrev parsed : ParsedRequest
parsed = record {
  operation = put_object (codes "b") (codes "k");
  request_id = codes "r";
  content_type = none;
  content_length = none;
  content_md5 = none;
  authorization = none;
  amz_date = none;
  amz_content_sha256 = none;
  range = none;
  user_metadata = [];
  extra_amz_headers = [];
  content_headers = [];
}

has_mode : decoder_mode_from_headers http headers (codes "r") ≡ ok hmac
unfolding decoder_mode_from_headers get_all tiny_s3_proxy.Text.bytes_eq tiny_s3_proxy.Text.trim
    tiny_s3_proxy.Text.uppercase
has_mode = refl

is_planned :
    decode_plan http state headers (some verified_request) (codes "r")
    ≡ ok (record { declared_len = 4; mode = hmac; signature_policy = hmac_policy })
unfolding decode_plan get_all tiny_s3_proxy.Text.bytes_eq tiny_s3_proxy.Text.trim
    tiny_s3_proxy.Text.uppercase
is_planned = refl

is_decoded :
    decoded_upload signing to_string spool
      (codes "r")
      http
      state
      headers
      (some verified_request)
      body
    ≡ some (ok (signed_summary, codes "abcd"))
unfolding decoded_upload decode_into_spool
is_decoded = ground (arith, is_planned, decodes_signed)

is_routed : aws_chunked_route_for http headers ≡ decode_aws_chunked
unfolding aws_chunked_route_for classify_aws_chunked_upload
    tiny_s3_proxy.Handlers.Modifiers.contains tiny_s3_proxy.Http.has_header
    tiny_s3_proxy.Text.bytes_eq tiny_s3_proxy.Handlers.Modifiers.observed_mode
    tiny_s3_proxy.Handlers.Modifiers.fold_modes get_all tiny_s3_proxy.Text.trim
    tiny_s3_proxy.Handlers.Modifiers.join_mode tiny_s3_proxy.Handlers.Modifiers.sentinel_mode
    tiny_s3_proxy.Text.uppercase
is_routed = refl

one_sentinel : get_all (codes "x-amz-content-sha256") headers ≡ sentinel ∷ []
unfolding get_all tiny_s3_proxy.Text.bytes_eq
one_sentinel = refl

no_trailer : get_all (codes "x-amz-trailer") headers ≡ []
unfolding get_all tiny_s3_proxy.Text.bytes_eq
no_trailer = refl

has_signatures : signed_chunk_algorithm hmac ≡ some SignedChunkAlgorithm.hmac_sha256
unfolding signed_chunk_algorithm
has_signatures = refl

decoder_mode_agrees_example :
    (mode : DecoderMode) × (decoder_mode_from_headers http headers (codes "r") ≡ ok mode)
    × (classify_aws_chunked_upload http headers ≡ some (upload_mode mode))
decoder_mode_agrees_example =
    decoder_mode_agrees http headers (codes "r") sentinel is_routed one_sentinel (inl no_trailer)

strict_upload-IsVerified_example :
    (v : VerifiedRequest) × (some verified_request ≡ some v)
    × (policy : ChunkSignaturePolicy) × SeededBy v SignedChunkAlgorithm.hmac_sha256 policy
    × IsVerified signing policy (bytes body) [] (codes "abcd")
strict_upload-IsVerified_example =
    strict_upload-IsVerified http signing to_string spool state (codes "r") headers
      (some verified_request) body hmac SignedChunkAlgorithm.hmac_sha256 signed_summary
      (codes "abcd") refl has_mode has_signatures is_decoded

abbrev put_input : PutObjectSpoolInput
put_input = record {
  bucket = codes "b";
  key = codes "k";
  path = codes "/cache/tmp/1";
  len = 4;
  sha256_hex = signed_summary.sha256_hex;
  content_type = none;
  content_md5 = none;
  metadata = [];
  extra_amz_headers = [];
  content_headers = [];
  checksum = none;
}

is_stored :
    handle_put_decode_aws_chunked http signing to_string spool state parsed
      (codes "k")
      headers
      (some verified_request)
      body
      backend
    ≡ some (stored put_input (codes "etag"))
unfolding handle_put_decode_aws_chunked
is_stored = rw (is_decoded) refl

put_input-IsOfBody_example :
    (bytes : Bytes) × IsOfBody http signing state headers (codes "r") bytes put_input
put_input-IsOfBody_example =
    put_input-IsOfBody http signing to_string spool state parsed (codes "k") headers
      (some verified_request) body backend (stored put_input (codes "etag")) put_input is_stored
      refl

abbrev part_input : UploadPartSpoolInput
part_input = record {
  bucket = codes "b";
  key = codes "k";
  upload_id = codes "u";
  part_number = pos 1;
  path = codes "/cache/tmp/1";
  len = 4;
  sha256_hex = signed_summary.sha256_hex;
  content_md5 = none;
  extra_amz_headers = [];
  checksum = none;
}

part_is_stored :
    handle_upload_part_decode_aws_chunked http signing to_string spool state parsed
      (codes "k")
      headers
      (some verified_request)
      body
      (pos 1)
      (codes "u")
      part_backend
    ≡ some (stored part_input (codes "etag"))
unfolding handle_upload_part_decode_aws_chunked
part_is_stored = rw (is_decoded) refl

part_input-IsOfPart_example :
    (bytes : Bytes) × IsOfPart http signing state headers (codes "r") (pos 1) bytes part_input
part_input-IsOfPart_example =
    part_input-IsOfPart http signing to_string spool state parsed (codes "k") headers
      (some verified_request) body (pos 1) (codes "u") part_backend
      (stored part_input (codes "etag")) part_input part_is_stored refl

decoded_upload-Answers_example :
    Answers http signing to_string spool state (codes "r") headers (some verified_request) body (
      decoded_upload signing to_string spool
        (codes "r")
        http
        state
        headers
        (some verified_request)
        body)
decoded_upload-Answers_example =
    decoded_upload-Answers http signing to_string spool state (codes "r") headers
      (some verified_request) body
