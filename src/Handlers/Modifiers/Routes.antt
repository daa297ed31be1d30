-- ===== src/Handlers/Modifiers/Routes.antt =====
-- When each route is taken (src/handlers/modifiers.rs).
use tiny_s3_proxy.Text.{Bytes}
use tiny_s3_proxy.Prelude.{
  Option, arith, false, none, refl, some, ◌≡◌, Bool, if◌then◌else◌, ◌||◌, ◌↔◌, ◌≢◌,
}
use tiny_s3_proxy.Dict.{Dict, any_key}
use tiny_s3_proxy.Http.{HttpCrates, HeaderMap}
use tiny_s3_proxy.S3.Parse.Headers.{is_one_of}
use tiny_s3_proxy.Handlers.Modifiers.{
  WriteBodyRoute, typed, decode_aws_chunked, passthrough, AwsChunkedUploadMode, other_streaming,
  write_modifying_base, has_unsupported_http_conditionals, classify_aws_chunked_upload,
  aws_chunked_route_for, is_reject, reject_unsupported_signature, classify_put_body_route,
  has_unsupported_write_modifiers, classify_upload_part_body_route,
  has_s3_streaming_upload_indicators, multipart_checksum_headers,
}

-- No header describes the write in a way that the typed path cannot carry.
abbrev pub IsPlainWrite : Dict Bytes → HeaderMap → Type 0
IsPlainWrite extra_amz headers =
    (has_unsupported_http_conditionals headers ≡ false)
    × (any_key (is_one_of write_modifying_base) extra_amz ≡ false)

-- What the body's framing asks for, all other gates being open.
abbrev pub FramingRoute : Option AwsChunkedUploadMode → WriteBodyRoute → Type 0
FramingRoute none route = route ≡ typed
FramingRoute (some other_streaming) route = route ≡ passthrough
FramingRoute (some _) route = route ≡ decode_aws_chunked

module _ (http : HttpCrates) (extra_amz : Dict Bytes) (headers : HeaderMap) where
  aws_chunked_route_for-FramingRoute :
      FramingRoute (classify_aws_chunked_upload http headers) (aws_chunked_route_for http headers)
  unfolding aws_chunked_route_for
  aws_chunked_route_for-FramingRoute = go (classify_aws_chunked_upload http headers) refl
    where
      go :
          (m : Option AwsChunkedUploadMode)
          → classify_aws_chunked_upload http headers ≡ m
          → FramingRoute m (aws_chunked_route_for http headers)
      go none e = ground arith
      go (some other_streaming) e = ground arith
      go (some _) e = ground arith

  aws_chunked_route_for-ne-reject : is_reject (aws_chunked_route_for http headers) ≡ false
  unfolding aws_chunked_route_for
  aws_chunked_route_for-ne-reject = ground arith

  gated :
      (route : WriteBodyRoute)
      → is_reject route ≡ false
      → (conditionals modifying : Bool)
      → (if is_reject route
          then reject_unsupported_signature
          else if conditionals
          then passthrough
          else if modifying
          then passthrough
          else route)
        ≡ (if conditionals || modifying then passthrough else route)
  gated route h conditionals modifying = ground arith

  -- A PUT takes the path that its framing asks for if the typed path can carry its headers, else
  -- the raw passthrough; no PUT is rejected for its signature.
  pub classify_put_body_route_cases :
      (IsPlainWrite extra_amz headers
        → FramingRoute
            (classify_aws_chunked_upload http headers)
            (classify_put_body_route http extra_amz headers))
      × (¬ IsPlainWrite extra_amz headers
          → classify_put_body_route http extra_amz headers ≡ passthrough)
      × (classify_put_body_route http extra_amz headers ≢ reject_unsupported_signature)
  unfolding classify_put_body_route
  classify_put_body_route_cases =
      let framed = aws_chunked_route_for-FramingRoute in
      let open_gate = aws_chunked_route_for-ne-reject in
      (λ (a, b). rw (gated _ open_gate, a, b) framed, λ closed. ground arith, ground arith)

  -- An UploadPart takes the path of a PUT with the same headers, except that one with a checksum
  -- header takes the raw passthrough where a PUT would be typed.
  pub classify_upload_part_body_route-put :
      classify_upload_part_body_route http extra_amz headers
      ≡ elim (classify_put_body_route http extra_amz headers) [
        | typed ↦
            if any_key (is_one_of multipart_checksum_headers) extra_amz then passthrough else typed
        | route ↦ route
      ]
  unfolding classify_put_body_route classify_upload_part_body_route
  classify_upload_part_body_route-put = ground arith

  -- The Boolean gate of the other writes opens exactly when a PUT would be typed.
  pub has_unsupported_write_modifiers-typed :
      (has_unsupported_write_modifiers http extra_amz headers ≡ false)
      ↔ (classify_put_body_route http extra_amz headers ≡ typed)
  unfolding has_unsupported_write_modifiers has_s3_streaming_upload_indicators
      classify_put_body_route aws_chunked_route_for
  has_unsupported_write_modifiers-typed = ground arith
