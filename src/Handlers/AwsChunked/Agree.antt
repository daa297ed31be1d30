-- ===== src/Handlers/AwsChunked/Agree.antt =====
-- The dispatch and the decoder read the same mode from the headers (src/handlers/modifiers.rs,
-- src/handlers/aws_chunked.rs).
use tiny_s3_proxy.S3.Checksum.{ChecksumHeader, from_header_name, header_name}
use tiny_s3_proxy.Handlers.AwsChunked.{single_value, S3Error}
use tiny_s3_proxy.Handlers.AwsChunked.Mode.{
  decoder_mode_from_headers, read_declared_trailer, mode_of_sentinel, trailer_mode,
}
use tiny_s3_proxy.Prelude.{
  Option-cases, [], arith, inl, inr, none, some, ◌∷◌, ◌≡◌, refl, ◌≢◌, false, is_empty, ok, true,
  Bool, Bool-cases, Result, String, ◌⊎◌,
}
use tiny_s3_proxy.Text.{Bytes, codes, trim, uppercase, bytes_eq}
use tiny_s3_proxy.Http.{HeaderMap, HttpCrates, get_all, get_first}
use tiny_s3_proxy.S3.AwsChunked.Types.{
  DecoderMode, ecdsa_p256, hmac_sha256, non_trailer, signed_trailer, unsigned_trailer,
}
use tiny_s3_proxy.Handlers.Modifiers as Modifiers
use tiny_s3_proxy.Handlers.Modifiers.{
  AwsChunkedUploadMode, aws_chunked_route_for, classify_aws_chunked_upload, decode_aws_chunked,
  fold_modes, is_trailer_mode, join_mode, observed_mode, sentinel_mode, trailer_algorithm_supported,
}

-- The dispatch's name of a decoder mode.
abbrev pub upload_mode : DecoderMode → AwsChunkedUploadMode
upload_mode (non_trailer hmac_sha256) = Modifiers.non_trailer_hmac_sha256
upload_mode (non_trailer ecdsa_p256) = Modifiers.non_trailer_ecdsa_p256
upload_mode (unsigned_trailer _ _) = Modifiers.unsigned_trailer
upload_mode (signed_trailer _ _ hmac_sha256) = Modifiers.signed_trailer_hmac_sha256
upload_mode (signed_trailer _ _ ecdsa_p256) = Modifiers.signed_trailer_ecdsa_p256

get_first-get_all :
    (name : Bytes) (headers : HeaderMap) (v : Bytes)
    → get_all name headers ≡ v ∷ []
    → get_first name headers ≡ some v
unfolding get_all get_first
get_first-get_all name [] v h = cc
get_first-get_all name ((n, w) ∷ headers) v h = ground (arith, get_first-get_all name headers v)

get_first-none :
    (name : Bytes) (headers : HeaderMap) → get_all name headers ≡ [] → get_first name headers ≡ none
unfolding get_all get_first
get_first-none name [] h = refl
get_first-none name ((n, w) ∷ headers) h = ground (arith, get_first-none name headers)

module _ (http : HttpCrates) (headers : HeaderMap) (request_id : Bytes) where
  -- A route to the decoder is that of a mode the dispatch knows.
  route-decode :
      aws_chunked_route_for http headers ≡ decode_aws_chunked
      → (m : AwsChunkedUploadMode) × (classify_aws_chunked_upload http headers ≡ some m)
        × (m ≢ Modifiers.other_streaming)
        × (observed_mode http headers ≡ some m)
  unfolding aws_chunked_route_for classify_aws_chunked_upload
  route-decode h = elim (Option-cases (observed_mode http headers)) [
    | inl nothing ↦ absurd (ground (arith, nothing))
    | inr (m, e) ↦ (m, ground (arith, e), ground (arith, e), e)
  ]

  -- One sentinel is observed as it stands.
  observed_mode_single :
      (v : Bytes) (m : AwsChunkedUploadMode)
      → get_all (codes "x-amz-content-sha256") headers ≡ v ∷ []
      → observed_mode http headers ≡ some m
      → (s : Bytes) × (http.to_str v ≡ some s)
        × (is_empty (trim s) ≡ false)
        × (sentinel_mode (trailer_algorithm_supported http headers) (uppercase (trim s)) ≡ some m)
  unfolding observed_mode fold_modes join_mode
  observed_mode_single v m one h = elim (Option-cases (http.to_str v)) [
    | inl odd ↦ absurd (ground (arith, rw (one, observed_mode, fold_modes, odd) at h))
    | inr (s, text) ↦ (s, text, ground (arith, one, text, h), ground (arith, one, text, h))
  ]

  -- A supported trailer that is declared once is read.
  read_declared_trailer_single :
      (t : Bytes)
      → get_all (codes "x-amz-trailer") headers ≡ t ∷ []
      → trailer_algorithm_supported http headers ≡ true
      → (header : ChecksumHeader) × (read_declared_trailer http headers request_id ≡ ok header)
  unfolding trailer_algorithm_supported read_declared_trailer single_value
  read_declared_trailer_single t one supported =
      let first = get_first-get_all (codes "x-amz-trailer") headers t one in
      elim (Option-cases (http.to_str t)) [
        | inl odd ↦ absurd (ground (arith, first, odd, supported))
        | inr (s, text) ↦ elim (Option-cases (from_header_name (trim s))) [
          | inl unknown ↦ absurd (ground (arith, first, text, unknown, supported))
          | inr (algo, known) ↦ (
            record { algorithm = algo; name = header_name algo; value = [] },
            ground (arith, one, text, known),
          )
        ]
      ]

  unsupported :
      get_all (codes "x-amz-trailer") headers ≡ [] → trailer_algorithm_supported http headers ≢ true
  unfolding trailer_algorithm_supported
  unsupported nothing supported =
      let first = get_first-none (codes "x-amz-trailer") headers nothing in
      absurd (ground (arith, first, supported))

  -- What the decoder makes of a sentinel that the dispatch knows.
  abbrev Agrees : AwsChunkedUploadMode → Result S3Error DecoderMode → Type 0
  Agrees m r = (mode : DecoderMode) × (r ≡ ok mode) × (upload_mode mode ≡ m)

  abbrev is_sentinel : Bytes → String → Bool
  is_sentinel s text = bytes_eq (uppercase s) (codes text)

  -- Without a supported trailer there are two.
  mode_of_sentinel_plain :
      (s : Bytes) (m : AwsChunkedUploadMode)
      → is_empty s ≡ false
      → sentinel_mode false (uppercase s) ≡ some m
      → m ≢ Modifiers.other_streaming
      → Agrees m (mode_of_sentinel http headers request_id s)
  unfolding sentinel_mode mode_of_sentinel
  mode_of_sentinel_plain s m full found known =
      elim (Bool-cases (bytes_eq (uppercase s) (codes "STREAMING-AWS4-HMAC-SHA256-PAYLOAD"))) [
        | inl hmac ↦
            (non_trailer hmac_sha256, ground (arith, full, hmac), ground (arith, hmac, found))
        | inr h1 ↦ elim (Bool-cases (is_sentinel s "STREAMING-AWS4-ECDSA-P256-SHA256-PAYLOAD")) [
          | inl ecdsa ↦ (
            non_trailer ecdsa_p256,
            ground (arith, full, h1, ecdsa),
            ground (arith, h1, ecdsa, found),
          )
          | inr h2 ↦ absurd (ground (arith, h1, h2, found, known))
        ]
      ]

  mode_of_sentinel_trailer :
      (s : Bytes) (m : AwsChunkedUploadMode) (header : ChecksumHeader)
      → is_empty s ≡ false
      → sentinel_mode true (uppercase s) ≡ some m
      → m ≢ Modifiers.other_streaming
      → read_declared_trailer http headers request_id ≡ ok header
      → Agrees m (mode_of_sentinel http headers request_id s)
  unfolding sentinel_mode mode_of_sentinel trailer_mode
  mode_of_sentinel_trailer s m header full found known read =
      elim (Bool-cases (is_sentinel s "STREAMING-AWS4-HMAC-SHA256-PAYLOAD")) [
        | inl hmac ↦
            (non_trailer hmac_sha256, ground (arith, full, hmac), ground (arith, hmac, found))
        | inr h1 ↦ elim (Bool-cases (is_sentinel s "STREAMING-AWS4-ECDSA-P256-SHA256-PAYLOAD")) [
          | inl ecdsa ↦ (
            non_trailer ecdsa_p256,
            ground (arith, full, h1, ecdsa),
            ground (arith, h1, ecdsa, found),
          )
          | inr h2 ↦ elim (Bool-cases (is_sentinel s "STREAMING-UNSIGNED-PAYLOAD-TRAILER")) [
            | inl unsigned ↦ (
              unsigned_trailer header.name header.algorithm,
              ground (arith, full, h1, h2, unsigned, read),
              ground (arith, h1, h2, unsigned, found),
            )
            | inr h3 ↦
                elim (Bool-cases (is_sentinel s "STREAMING-AWS4-HMAC-SHA256-PAYLOAD-TRAILER")) [
                  | inl signed ↦ (
                    signed_trailer header.name header.algorithm hmac_sha256,
                    ground (arith, full, h1, h2, h3, signed, read),
                    ground (arith, h1, h2, h3, signed, found),
                  )
                  | inr h4 ↦ (
                    signed_trailer header.name header.algorithm ecdsa_p256,
                    ground (arith, full, h1, h2, h3, h4, read, found, known),
                    ground (arith, h1, h2, h3, h4, found, known),
                  )
                ]
          ]
        ]
      ]

  -- Where the request names at most one trailer.
  mode_of_sentinel-Agrees :
      (s : Bytes) (m : AwsChunkedUploadMode)
      → is_empty s ≡ false
      → sentinel_mode (trailer_algorithm_supported http headers) (uppercase s) ≡ some m
      → m ≢ Modifiers.other_streaming
      → (get_all (codes "x-amz-trailer") headers ≡ [])
        ⊎ ((t : Bytes) × (get_all (codes "x-amz-trailer") headers ≡ t ∷ []))
      → Agrees m (mode_of_sentinel http headers request_id s)
  mode_of_sentinel-Agrees s m full found known trailers =
      elim (Bool-cases (trailer_algorithm_supported http headers)) [
        | inl all_supported ↦ elim trailers [
          | inl nothing ↦ absurd (unsupported nothing all_supported)
          | inr (t, one) ↦
              let (header, read) = read_declared_trailer_single t one all_supported in
              mode_of_sentinel_trailer s m header full (rw (all_supported) at found) known read
        ]
        | inr none_supported ↦ mode_of_sentinel_plain s m full (rw (none_supported) at found) known
      ]

  -- A write body that the dispatch routes to the decoder is decoded in the mode the dispatch
  -- classified it as, when the request has one x-amz-content-sha256 header and at most one
  -- x-amz-trailer header: the decoder's own reading of the headers does not fail, and gives the
  -- decoder mode of that class.
  pub decoder_mode_agrees :
      (v : Bytes)
      → aws_chunked_route_for http headers ≡ decode_aws_chunked
      → get_all (codes "x-amz-content-sha256") headers ≡ v ∷ []
      → (get_all (codes "x-amz-trailer") headers ≡ [])
        ⊎ ((t : Bytes) × (get_all (codes "x-amz-trailer") headers ≡ t ∷ []))
      → (mode : DecoderMode) × (decoder_mode_from_headers http headers request_id ≡ ok mode)
        × (classify_aws_chunked_upload http headers ≡ some (upload_mode mode))
  unfolding decoder_mode_from_headers single_value
  decoder_mode_agrees v route one trailers =
      let (m, class, known, observed) = route-decode route in
      let (s, text, full, found) = observed_mode_single v m one observed in
      let (mode, gives, same) = mode_of_sentinel-Agrees (trim s) m full found known trailers in
      (mode, ground (arith, one, text, gives), rw (class, same))
