-- ===== src/Handlers/Tests.antt =====
-- Requests and the routes of their bodies (src/handlers/modifiers.rs).
use tiny_s3_proxy.S3.Parse.Headers.{is_one_of}
use tiny_s3_proxy.Handlers.Modifiers.Sentinels.{classify-trailer, fold_modes-perm}
use tiny_s3_proxy.Dict.{Dict, any_key}
use tiny_s3_proxy.Handlers.Modifiers.Routes.{
  IsPlainWrite, FramingRoute, classify_put_body_route_cases, has_unsupported_write_modifiers-typed,
  classify_upload_part_body_route-put,
}
use tiny_s3_proxy.Handlers.Modifiers.{
  classify_aws_chunked_upload, is_trailer_mode, fold_modes, classify_upload_part_body_route,
  has_unsupported_write_modifiers, AwsChunkedUploadMode, contains, classify_put_body_route,
  passthrough, other_streaming, trailer_algorithm_supported, reject_unsupported_signature, typed,
  multipart_checksum_headers,
}
use tiny_s3_proxy.Http.{HttpCrates, HeaderMap}
use tiny_s3_proxy.Text.{Bytes, codes, bytes_eq, eq_ignore_ascii_case, lowercase, trim, uppercase}
use tiny_s3_proxy.Prelude.{
  [], arith, false, if◌then◌else◌, none, refl, some, true, ◌↔◌, ◌∷◌, ◌≡◌, ◌≢◌,
}
use mathlib.Core.List.{Perm, Permᴰ}

-- A stand-in for the `http` and `percent-encoding` crates: every header value is text.
abbrev http : HttpCrates
http = record { percent_decode = λ s. s; to_str = λ s. some s; is_status = λ n. true }

abbrev trailer_upload : HeaderMap
trailer_upload =
    (codes "x-amz-content-sha256", codes " streaming-unsigned-payload-trailer")
    ∷ (codes "x-amz-trailer", codes "X-Amz-Checksum-CRC32")
    ∷ []

abbrev hmac : Bytes
hmac = codes "STREAMING-AWS4-HMAC-SHA256-PAYLOAD"

abbrev unsigned : Bytes
unsigned = codes "STREAMING-UNSIGNED-PAYLOAD-TRAILER"

classify-trailer_upload :
    classify_aws_chunked_upload http trailer_upload ≡ some AwsChunkedUploadMode.unsigned_trailer
unfolding classify_aws_chunked_upload contains tiny_s3_proxy.Http.has_header
    tiny_s3_proxy.Text.bytes_eq is_trailer_mode tiny_s3_proxy.Handlers.Modifiers.observed_mode
    fold_modes tiny_s3_proxy.Http.get_all tiny_s3_proxy.Text.trim
    tiny_s3_proxy.Handlers.Modifiers.join_mode tiny_s3_proxy.Handlers.Modifiers.sentinel_mode
    tiny_s3_proxy.Text.uppercase trailer_algorithm_supported tiny_s3_proxy.Http.get_first
    tiny_s3_proxy.S3.Checksum.from_header_name tiny_s3_proxy.Text.eq_ignore_ascii_case
    tiny_s3_proxy.Text.lowercase
classify-trailer_upload = refl

unsigned_ne_other : AwsChunkedUploadMode.unsigned_trailer ≢ other_streaming
unsigned_ne_other = ground arith

classify-trailer_example :
    (true ≡ contains trailer_upload "x-amz-trailer")
    × (contains trailer_upload "x-amz-trailer" ≡ true
        → trailer_algorithm_supported http trailer_upload ≡ true)
unfolding is_trailer_mode
classify-trailer_example =
    classify-trailer http trailer_upload AwsChunkedUploadMode.unsigned_trailer
      classify-trailer_upload unsigned_ne_other

swapped : Perm (hmac ∷ unsigned ∷ []) (unsigned ∷ hmac ∷ [])
swapped = ∣ Permᴰ.swap refl refl ∣₁

fold_modes-perm_example :
    fold_modes http true none (hmac ∷ unsigned ∷ [])
    ≡ fold_modes http true none (unsigned ∷ hmac ∷ [])
fold_modes-perm_example =
    fold_modes-perm http true none (hmac ∷ unsigned ∷ []) (unsigned ∷ hmac ∷ []) swapped

classify_put_body_route_cases_example :
    (IsPlainWrite [] trailer_upload
      → FramingRoute
          (classify_aws_chunked_upload http trailer_upload)
          (classify_put_body_route http [] trailer_upload))
    × (¬ IsPlainWrite [] trailer_upload
        → classify_put_body_route http [] trailer_upload ≡ passthrough)
    × (classify_put_body_route http [] trailer_upload ≢ reject_unsupported_signature)
classify_put_body_route_cases_example = classify_put_body_route_cases http [] trailer_upload

-- A part with a checksum header.
abbrev with_checksum : Dict Bytes
with_checksum = (codes "x-amz-checksum-crc32", codes "AAAAAA==") ∷ []

classify_upload_part_body_route-put_example :
    classify_upload_part_body_route http with_checksum []
    ≡ elim (classify_put_body_route http with_checksum []) [
      | typed ↦
          if any_key (is_one_of multipart_checksum_headers) with_checksum
          then passthrough
          else typed
      | route ↦ route
    ]
classify_upload_part_body_route-put_example =
    classify_upload_part_body_route-put http with_checksum []

has_unsupported_write_modifiers-typed_example :
    (has_unsupported_write_modifiers http [] trailer_upload ≡ false)
    ↔ (classify_put_body_route http [] trailer_upload ≡ typed)
has_unsupported_write_modifiers-typed_example =
    has_unsupported_write_modifiers-typed http [] trailer_upload

part_with_checksum_goes_through :
    classify_upload_part_body_route http with_checksum [] ≡ passthrough
unfolding classify_upload_part_body_route tiny_s3_proxy.Handlers.Modifiers.aws_chunked_route_for
    classify_aws_chunked_upload contains tiny_s3_proxy.Http.has_header
    tiny_s3_proxy.Handlers.Modifiers.observed_mode fold_modes tiny_s3_proxy.Http.get_all
    tiny_s3_proxy.Handlers.Modifiers.content_encoding_has_aws_chunked
    tiny_s3_proxy.Handlers.Modifiers.has_unsupported_http_conditionals any_key is_one_of
    tiny_s3_proxy.Text.bytes_eq
part_with_checksum_goes_through = refl
