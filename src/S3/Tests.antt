-- ===== src/S3/Tests.antt =====
-- Requests and what they are parsed as (src/s3/parse.rs, src/s3/checksum.rs).
use tiny_s3_proxy.S3.Checksum.Laws.{lowercase-from_header_name}
use tiny_s3_proxy.S3.Parse.Headers.{scan_headers}
use tiny_s3_proxy.S3.Parse.Writes.{IsPlain, operation-key, IsCompletion, is_write-operation}
use tiny_s3_proxy.Text.Numbers.{pos}
use tiny_s3_proxy.S3.Checksum.{from_header_name, header_name, sha256}
use tiny_s3_proxy.S3.Parse.Headers.Signing.{AllForwardable, scan_headers_forwardable}
use tiny_s3_proxy.S3.Parse.{Line, parse_operation, is_subresource, operation}
use tiny_s3_proxy.Http.{HttpCrates, Request, HeaderMap}
use tiny_s3_proxy.S3.Ops.{
  is_write, S3Operation, complete_multipart_upload, upload_part, unsupported,
}
use tiny_s3_proxy.Text.{
  codes, lowercase, bytes_eq, eq_ignore_ascii_case, split, split_once, strip_prefix,
}
use tiny_s3_proxy.Prelude.{String, [], false, is_empty, refl, some, true, ◌↔◌, ◌∷◌, ◌≡◌, ◌⊎◌}
use tiny_s3_proxy.S3.Ops

abbrev http : HttpCrates
http = record { percent_decode = λ s. s; to_str = λ s. some s; is_status = λ n. true }

abbrev request : String → String → Request
request method query = record {
  method = codes method;
  path = codes "/bucket/a/b";
  query = some (codes query);
  headers = [];
}

abbrev completion : Line
completion = record {
  method = codes "POST";
  path = codes "/bucket/a/b";
  bucket = codes "bucket";
  key = codes "a/b";
  query = (codes "uploadId", codes "7") ∷ [];
  copies = false;
}

parse-completion :
    parse_operation http (request "POST" "uploadId=7")
    ≡ complete_multipart_upload (codes "bucket") (codes "a/b") (codes "7")
unfolding parse_operation operation tiny_s3_proxy.S3.Parse.split_path
    tiny_s3_proxy.Text.strip_prefix tiny_s3_proxy.Text.split_once
    tiny_s3_proxy.S3.Parse.object_operation is_subresource tiny_s3_proxy.S3.Parse.has_any
    tiny_s3_proxy.S3.Parse.has tiny_s3_proxy.Dict.contains_key tiny_s3_proxy.S3.Parse.parse_query
    tiny_s3_proxy.Text.split tiny_s3_proxy.Dict.insert tiny_s3_proxy.Text.bytes_eq
    tiny_s3_proxy.S3.Parse.has_multipart_params tiny_s3_proxy.S3.Parse.multipart_operation
parse-completion = refl

parse-part_number :
    parse_operation http (request "PUT" "partNumber=x&uploadId=7")
    ≡ upload_part (codes "bucket") (codes "a/b") (pos 0) (codes "7")
unfolding parse_operation operation tiny_s3_proxy.S3.Parse.split_path
    tiny_s3_proxy.Text.strip_prefix tiny_s3_proxy.Text.split_once
    tiny_s3_proxy.S3.Parse.object_operation is_subresource tiny_s3_proxy.S3.Parse.has_any
    tiny_s3_proxy.S3.Parse.has tiny_s3_proxy.Dict.contains_key tiny_s3_proxy.S3.Parse.parse_query
    tiny_s3_proxy.Text.split tiny_s3_proxy.Dict.insert tiny_s3_proxy.Text.bytes_eq
    tiny_s3_proxy.S3.Parse.has_multipart_params tiny_s3_proxy.S3.Parse.multipart_operation
    tiny_s3_proxy.Http.has_header tiny_s3_proxy.Text.Numbers.parse_signed
parse-part_number = refl

is_write-operation_example : (is_write (operation completion) ≡ true) ↔ (
    (IsPlain completion "PUT" × (false ≡ false))
    ⊎ IsPlain completion "DELETE"
    ⊎ IsCompletion completion)
is_write-operation_example = is_write-operation completion

has_key : Ops.key (operation completion) ≡ some (codes "a/b")
unfolding operation Ops.key tiny_s3_proxy.S3.Parse.object_operation is_subresource
    tiny_s3_proxy.S3.Parse.has_any tiny_s3_proxy.S3.Parse.has tiny_s3_proxy.Dict.contains_key
    tiny_s3_proxy.Text.bytes_eq tiny_s3_proxy.S3.Parse.has_multipart_params
    tiny_s3_proxy.S3.Parse.multipart_operation
has_key = refl

operation-key_example :
    (codes "a/b" ≡ codes "a/b")
    × (is_empty (codes "a/b") ≡ false)
    × (Ops.bucket (operation completion) ≡ codes "bucket")
operation-key_example = operation-key completion (codes "a/b") has_key

abbrev amz_headers : HeaderMap
amz_headers =
    (codes "x-amz-meta-owner", codes "me")
    ∷ (codes "x-amz-date", codes "20260101T000000Z")
    ∷ (codes "x-amz-acl", codes "private")
    ∷ []

scan_headers_forwardable_example :
    AllForwardable
      (scan_headers http amz_headers (record { user_metadata = []; extra_amz_headers = [] }))
scan_headers_forwardable_example = scan_headers_forwardable http amz_headers

accepted : from_header_name (codes "X-Amz-Checksum-SHA256") ≡ some sha256
unfolding from_header_name tiny_s3_proxy.Text.eq_ignore_ascii_case tiny_s3_proxy.Text.bytes_eq
    lowercase
accepted = refl

lowercase-from_header_name_example : lowercase (codes "X-Amz-Checksum-SHA256") ≡ header_name sha256
lowercase-from_header_name_example =
    lowercase-from_header_name (codes "X-Amz-Checksum-SHA256") sha256 accepted
