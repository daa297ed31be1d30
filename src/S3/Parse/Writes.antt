-- ===== src/S3/Parse/Writes.antt =====
-- Which requests are classified as writes, and what the operations carry (src/s3/parse.rs).
use tiny_s3_proxy.Prelude.{String, arith, false, is_empty, some, true, ◌↔◌, ◌≡◌, ◌⊎◌}
use tiny_s3_proxy.Text.{Bytes, codes}
use tiny_s3_proxy.Text.Laws.{bytes_eq_iff}
use tiny_s3_proxy.S3.Ops.{
  S3Operation, put_object, delete_object, get_object, complete_multipart_upload, unsupported,
  upload_part, is_write, bucket, key,
}
use tiny_s3_proxy.S3.Ops
use tiny_s3_proxy.S3.Parse.{
  Line, has, is_subresource, has_multipart_params, multipart_operation, plain_operation,
  object_operation, bucket_operation, operation,
}

-- An operation on an object, with no subresource and no multipart parameter.
pub record IsPlain (l : Line) (method : String) : Type 0 where
  pub has_method : l.method ≡ codes method
  pub bucket : is_empty l.bucket ≡ false
  pub key : is_empty l.key ≡ false
  pub no_subresource : is_subresource l.query ≡ false
  pub no_multipart : has_multipart_params l.query ≡ false

-- A completion of a multipart upload: a POST with an upload id and no other parameter of those.
pub record IsCompletion (l : Line) : Type 0 where
  pub has_method : l.method ≡ codes "POST"
  pub bucket : is_empty l.bucket ≡ false
  pub key : is_empty l.key ≡ false
  pub no_subresource : is_subresource l.query ≡ false
  pub has_id : has "uploadId" l.query ≡ true
  pub no_uploads : has "uploads" l.query ≡ false
  pub no_part : has "partNumber" l.query ≡ false

module _ (l : Line) where
  plain_operation-write :
      (is_write (plain_operation l) ≡ true)
      ↔ (((l.method ≡ codes "PUT") × (l.copies ≡ false)) ⊎ (l.method ≡ codes "DELETE"))
  unfolding plain_operation is_write
  plain_operation-write = ground (
    arith,
    bytes_eq_iff l.method (codes "GET"),
    bytes_eq_iff l.method (codes "HEAD"),
    bytes_eq_iff l.method (codes "PUT"),
    bytes_eq_iff l.method (codes "DELETE"),
  )

  multipart_operation-write : (is_write (multipart_operation l) ≡ true) ↔ (
      (l.method ≡ codes "POST")
      × (has "uploadId" l.query ≡ true)
      × (has "uploads" l.query ≡ false)
      × (has "partNumber" l.query ≡ false))
  unfolding multipart_operation is_write
  multipart_operation-write = ground (
    arith,
    bytes_eq_iff l.method (codes "PUT"),
    bytes_eq_iff l.method (codes "POST"),
    bytes_eq_iff l.method (codes "DELETE"),
  )

  bucket_operation-not_write : is_write (bucket_operation l) ≡ false
  unfolding bucket_operation is_write
  bucket_operation-not_write = ground arith

  -- A request is taken for a write of an object exactly when it is a plain PUT that copies from
  -- nowhere, a plain DELETE, or the completion of a multipart upload.
  pub is_write-operation :
      (is_write (operation l) ≡ true)
      ↔ ((IsPlain l "PUT" × (l.copies ≡ false)) ⊎ IsPlain l "DELETE" ⊎ IsCompletion l)
  unfolding operation object_operation has_multipart_params is_write
  is_write-operation =
      ground (arith, plain_operation-write, multipart_operation-write, bucket_operation-not_write)

-- An operation that has a key has the key and the bucket of the path, and the key is not empty.
pub operation-key :
    (l : Line) (k : Bytes)
    → Ops.key (operation l) ≡ some k
    → (k ≡ l.key) × (is_empty k ≡ false) × (Ops.bucket (operation l) ≡ l.bucket)
unfolding operation object_operation bucket_operation plain_operation multipart_operation Ops.key
    Ops.bucket
operation-key l k h = ground arith
