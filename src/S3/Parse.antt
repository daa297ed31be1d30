-- ===== src/S3/Parse.antt =====
-- Classification of an HTTP request as an S3 operation (src/s3/parse.rs).
pub mod Headers
pub mod Parsed
pub mod Writes
use tiny_s3_proxy.Prelude.{
  Bool, List, Option, String, [], false, if◌then◌else◌, is_empty, none, not, some, true, ◌&&◌, ◌||◌,
  ◌∷◌,
}
use tiny_s3_proxy.Text.{Bytes, bytes_eq, codes, split, split_once, strip_prefix}
use tiny_s3_proxy.Text.Numbers.{ℤ, pos, parse_i32}
use tiny_s3_proxy.Dict
use tiny_s3_proxy.Dict.{Dict, is_some}
use tiny_s3_proxy.Http.{HttpCrates, Request, has_header, and_then, unwrap_or}
use tiny_s3_proxy.S3.Ops.{
  S3Operation, ListParams, get_object, head_object, put_object, delete_object, list_objects_v1,
  list_objects_v2, create_multipart_upload, upload_part, complete_multipart_upload,
  abort_multipart_upload, unsupported,
}

abbrev pub s3_subresource_params : List String
s3_subresource_params =
    "acl" ∷ "cors" ∷ "delete" ∷ "encryption" ∷ "intelligent-tiering" ∷ "inventory" ∷ "legal-hold"
    ∷ "lifecycle" ∷ "location" ∷ "logging" ∷ "metrics" ∷ "notification" ∷ "object-lock" ∷ "policy"
    ∷ "replication" ∷ "requestPayment" ∷ "restore" ∷ "retention" ∷ "select" ∷ "tagging" ∷ "torrent"
    ∷ "versioning" ∷ "versions" ∷ "website" ∷ "accelerate" ∷ "analytics" ∷ "versionId"
    ∷ "response-content-type" ∷ "response-content-disposition" ∷ "response-content-encoding"
    ∷ "response-content-language" ∷ "response-expires" ∷ "response-cache-control" ∷ []

abbrev pub Query : Type 0
Query = Dict Bytes

-- query.contains_key(param)
unfoldable pub has : String → Query → Bool
has param query = Dict.contains_key (codes param) query

abbrev value : String → Query → Option Bytes
value param query = Dict.get (codes param) query

unfoldable pub has_any : List String → Query → Bool
has_any [] query = false
has_any (p ∷ ps) query = has p query || has_any ps query

unfoldable pub is_subresource : Query → Bool
is_subresource query = has_any s3_subresource_params query

unfoldable pub has_multipart_params : Query → Bool
has_multipart_params query = has "uploads" query || has "uploadId" query || has "partNumber" query

-- The bucket and the encoded key of a path.
unfoldable pub split_path : Bytes → Bytes × Bytes
split_path path =
    let trimmed = unwrap_or (strip_prefix path (codes "/")) path in
    if is_empty trimmed then ([], []) else unwrap_or (split_once b'/' trimmed) (trimmed, [])

module _ (http : HttpCrates) where
  unfoldable pub insert_pair : Query → Bytes → Query
  insert_pair query pair = elim (split_once b'=' pair) [
    | some (k, v) ↦ Dict.insert (http.percent_decode k) (http.percent_decode v) query
    | none ↦ Dict.insert (http.percent_decode pair) [] query
  ]

  insert_pairs : Query → List Bytes → Query
  unfolding insert_pair
  insert_pairs query [] = query
  insert_pairs query (pair ∷ pairs) = insert_pairs (insert_pair query pair) pairs

  unfoldable pub parse_query : Bytes → Query
  unfolding insert_pairs
  parse_query query = if is_empty query then [] else insert_pairs [] (split b'&' query)

-- The request line, and whether the request copies from another object.
pub record Line : Type 0 where
  pub method : Bytes
  pub path : Bytes
  pub bucket : Bytes
  pub key : Bytes
  pub query : Query
  pub copies : Bool

abbrev refuse : Line → S3Operation
refuse l = unsupported l.method l.path

abbrev is_method : Line → String → Bool
is_method l m = bytes_eq l.method (codes m)

unfoldable pub multipart_operation : Line → S3Operation
multipart_operation l =
    let uploads = has "uploads" l.query in
    let upload_id = has "uploadId" l.query in
    let part_number = has "partNumber" l.query in
    let id = unwrap_or (value "uploadId" l.query) [] in
    if is_method l "PUT" && (part_number && upload_id && not uploads)
    then if l.copies
      then refuse l
      else upload_part l.bucket l.key
          (unwrap_or (and_then (value "partNumber" l.query) parse_i32) (pos 0)) id
    else if is_method l "POST" && (uploads && not upload_id && not part_number)
    then create_multipart_upload l.bucket l.key
    else if is_method l "POST" && (upload_id && not uploads && not part_number)
    then complete_multipart_upload l.bucket l.key id
    else if is_method l "DELETE" && (upload_id && not uploads && not part_number)
    then abort_multipart_upload l.bucket l.key id
    else refuse l

unfoldable pub plain_operation : Line → S3Operation
plain_operation l =
    if is_method l "GET"
    then get_object l.bucket l.key
    else if is_method l "HEAD"
    then head_object l.bucket l.key
    else if is_method l "PUT"
    then if l.copies then refuse l else put_object l.bucket l.key
    else if is_method l "DELETE"
    then delete_object l.bucket l.key
    else refuse l

unfoldable pub object_operation : Line → S3Operation
object_operation l =
    if is_subresource l.query
    then refuse l
    else if has_multipart_params l.query
    then multipart_operation l
    else plain_operation l

abbrev is_none {ℓ} : {A : Type ℓ} → Option A → Bool
is_none none = true
is_none (some a) = false

-- Whether the value is there and differs from the text.
abbrev differs : String → Option Bytes → Bool
differs t none = false
differs t (some v) = not (bytes_eq v (codes t))

abbrev equals : String → Option Bytes → Bool
equals t none = false
equals t (some v) = bytes_eq v (codes t)

abbrev not_i32 : Option Bytes → Bool
not_i32 none = false
not_i32 (some v) = is_none (parse_i32 v)

unfoldable pub list_params : Query → ListParams
list_params query = record {
  prefix = value "prefix" query;
  delimiter = value "delimiter" query;
  max_keys = and_then (value "max-keys" query) parse_i32;
  continuation_token = value "continuation-token" query;
  marker = value "marker" query;
  start_after = value "start-after" query;
  encoding_type = value "encoding-type" query;
}

unfoldable pub bucket_operation : Line → S3Operation
bucket_operation l =
    let list_type = value "list-type" l.query in
    if not (is_method l "GET")
    then refuse l
    else if is_subresource l.query || has "uploads" l.query
    then refuse l
    else if differs "2" list_type
        || not_i32 (value "max-keys" l.query)
        || differs "url" (value "encoding-type" l.query)
    then refuse l
    else if equals "2" list_type
    then list_objects_v2 l.bucket (list_params l.query)
    else list_objects_v1 l.bucket (list_params l.query)

unfoldable pub operation : Line → S3Operation
operation l =
    if is_empty l.bucket
    then refuse l
    else if not (is_empty l.key)
    then object_operation l
    else bucket_operation l

module _ (http : HttpCrates) where
  unfoldable pub request_line : Request → Line
  request_line req =
      let (bucket, raw_key) = split_path req.path in
      record {
        method = req.method;
        path = req.path;
        bucket = bucket;
        key = http.percent_decode raw_key;
        query = parse_query http (unwrap_or req.query []);
        copies = has_header (codes "x-amz-copy-source") req.headers;
      }

  -- The `operation` of `parse_request`.
  unfoldable pub parse_operation : Request → S3Operation
  unfolding request_line
  parse_operation req = operation (request_line req)
