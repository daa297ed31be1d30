-- ===== src/S3/Ops.antt =====
-- The classified operations (src/s3/ops.rs).
use tiny_s3_proxy.Text.{Bytes, codes}
use tiny_s3_proxy.Prelude.{Bool, Option, false, none, some, true, ℕ}
use tiny_s3_proxy.Text.Numbers.{ℤ}
use tiny_s3_proxy.Dict
use tiny_s3_proxy.Dict.{Dict}
use tiny_s3_proxy.Http.{and_then}
use tiny_s3_proxy.Backend.Models.{ReadOptions, from_header_value}

pub record ListParams : Type 0 where
  pub prefix : Option Bytes
  pub delimiter : Option Bytes
  pub max_keys : Option ℤ
  pub continuation_token : Option Bytes
  pub marker : Option Bytes
  pub start_after : Option Bytes
  pub encoding_type : Option Bytes

pub data S3Operation : Type 0 where
  get_object head_object put_object delete_object : (bucket key : Bytes) → S3Operation
  list_objects_v1 list_objects_v2 : (bucket : Bytes) → ListParams → S3Operation
  create_multipart_upload : (bucket key : Bytes) → S3Operation
  upload_part : (bucket key : Bytes) (part_number : ℤ) (upload_id : Bytes) → S3Operation
  complete_multipart_upload : (bucket key upload_id : Bytes) → S3Operation
  abort_multipart_upload : (bucket key upload_id : Bytes) → S3Operation
  unsupported : (method path : Bytes) → S3Operation

pub record ParsedRequest : Type 0 where
  pub operation : S3Operation
  pub request_id : Bytes
  pub content_type : Option Bytes
  pub content_length : Option ℕ
  pub content_md5 : Option Bytes
  pub authorization : Option Bytes
  pub amz_date : Option Bytes
  pub amz_content_sha256 : Option Bytes
  pub range : Option Bytes
  pub user_metadata : Dict Bytes
  pub extra_amz_headers : Dict Bytes
  pub content_headers : Dict Bytes

unfoldable pub read_options : ParsedRequest → ReadOptions
read_options r = record {
  checksum_mode =
      and_then (Dict.get (codes "x-amz-checksum-mode") r.extra_amz_headers) from_header_value;
}

unfoldable pub name : S3Operation → Bytes
name (get_object _ _) = codes "GetObject"
name (head_object _ _) = codes "HeadObject"
name (put_object _ _) = codes "PutObject"
name (delete_object _ _) = codes "DeleteObject"
name (list_objects_v1 _ _) = codes "ListObjectsV1"
name (list_objects_v2 _ _) = codes "ListObjectsV2"
name (create_multipart_upload _ _) = codes "CreateMultipartUpload"
name (upload_part _ _ _ _) = codes "UploadPart"
name (complete_multipart_upload _ _ _) = codes "CompleteMultipartUpload"
name (abort_multipart_upload _ _ _) = codes "AbortMultipartUpload"
name (unsupported _ _) = codes "Unsupported"

unfoldable pub bucket : S3Operation → Bytes
bucket (get_object b _) = b
bucket (head_object b _) = b
bucket (put_object b _) = b
bucket (delete_object b _) = b
bucket (list_objects_v1 b _) = b
bucket (list_objects_v2 b _) = b
bucket (create_multipart_upload b _) = b
bucket (upload_part b _ _ _) = b
bucket (complete_multipart_upload b _ _) = b
bucket (abort_multipart_upload b _ _) = b
bucket (unsupported _ path) = path

unfoldable pub key : S3Operation → Option Bytes
key (get_object _ k) = some k
key (head_object _ k) = some k
key (put_object _ k) = some k
key (delete_object _ k) = some k
key (list_objects_v1 _ _) = none
key (list_objects_v2 _ _) = none
key (create_multipart_upload _ k) = some k
key (upload_part _ k _ _) = some k
key (complete_multipart_upload _ k _) = some k
key (abort_multipart_upload _ k _) = some k
key (unsupported _ _) = none

unfoldable pub is_cacheable_read : S3Operation → Bool
is_cacheable_read (get_object _ _) = true
is_cacheable_read _ = false

unfoldable pub is_write : S3Operation → Bool
is_write (put_object _ _) = true
is_write (delete_object _ _) = true
is_write (complete_multipart_upload _ _ _) = true
is_write _ = false
