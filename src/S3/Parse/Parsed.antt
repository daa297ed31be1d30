-- ===== src/S3/Parse/Parsed.antt =====
-- The whole of `parse_request` (src/s3/parse.rs).
use tiny_s3_proxy.Text.{Bytes}
use tiny_s3_proxy.Prelude.{[]}
use tiny_s3_proxy.Http
use tiny_s3_proxy.Http.{HttpCrates}
use tiny_s3_proxy.S3.Ops.{ParsedRequest}
use tiny_s3_proxy.S3.Parse.{parse_operation}
use tiny_s3_proxy.S3.Parse.Headers.{header_str, content_length, scan_headers, content_headers}

-- `request_id` is what `request_id::generate()` has given.
unfoldable pub parse_request : HttpCrates → (request_id : Bytes) → Http.Request → ParsedRequest
unfolding parse_operation
parse_request http request_id req =
    let found =
      scan_headers http req.headers (record { user_metadata = []; extra_amz_headers = [] }) in
    record {
      operation = parse_operation http req;
      request_id = request_id;
      content_type = header_str http req.headers "content-type";
      content_length = content_length http req.headers;
      content_md5 = header_str http req.headers "content-md5";
      authorization = header_str http req.headers "authorization";
      amz_date = header_str http req.headers "x-amz-date";
      amz_content_sha256 = header_str http req.headers "x-amz-content-sha256";
      range = header_str http req.headers "range";
      user_metadata = found.user_metadata;
      extra_amz_headers = found.extra_amz_headers;
      content_headers = content_headers http req.headers;
    }
