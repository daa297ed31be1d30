-- ===== src/S3/Parse/Headers/Signing.antt =====
-- The headers of the client's own signature are never forwarded (src/s3/parse.rs).
use tiny_s3_proxy.Prelude.{
  Bool-cases, Option-cases, all, false, inl, inr, none, some, true, ◌≡◌, [], arith, not, ◌&&◌, ◌∷◌,
}
use tiny_s3_proxy.Text.{Bytes, bytes_eq, codes, starts_with, strip_prefix}
use tiny_s3_proxy.Text.Laws.{bytes_eq_iff}
use tiny_s3_proxy.Dict
use tiny_s3_proxy.Dict.{get-insert}
use tiny_s3_proxy.Http.{HttpCrates, HeaderMap}
use tiny_s3_proxy.S3.Parse.Headers.{
  signing_headers, is_one_of, AmzHeaders, take_header, scan_headers,
}

-- The name of a header that may be forwarded as it is.
pub record IsForwardable (name : Bytes) : Type 0 where
  pub amz : starts_with name (codes "x-amz-") ≡ true
  pub not_meta : strip_prefix name (codes "x-amz-meta-") ≡ none
  pub not_signing : is_one_of signing_headers name ≡ false

-- Every key of the map is such a name.
abbrev pub AllForwardable : AmzHeaders → Type 0
AllForwardable found =
    (name v : Bytes) → Dict.get name found.extra_amz_headers ≡ some v → IsForwardable name

none_yet : AllForwardable (record { user_metadata = []; extra_amz_headers = [] })
unfolding Dict.get
none_yet name v h = cc

module _ (http : HttpCrates) where
  take_header-AllForwardable :
      (name v : Bytes) (found : AmzHeaders)
      → AllForwardable found
      → AllForwardable (take_header http name v found)
  unfolding take_header
  take_header-AllForwardable name v found all other w h =
      elim (Option-cases (strip_prefix name (codes "x-amz-meta-"))) [
        | inr (bare_key, e) ↦ all other w (rw (e, take_header) at h)
        | inl e ↦
            elim (Bool-cases
              (starts_with name (codes "x-amz-") && not (is_one_of signing_headers name))) [
                | inr skip ↦ all other w (rw (e, skip, take_header) at h)
                | inl taken ↦
                    let put = rw (e, taken, take_header, get-insert) at h in
                    elim (Bool-cases (bytes_eq name other)) [
                      | inr apart ↦ all other w (rw apart at put)
                      | inl same ↦
                          rw (← (bytes_eq_iff name other).0 same) (record {
                            amz = ground arith;
                            not_meta = e;
                            not_signing = ground arith;
                          })
                    ]
              ]
      ]

  scan_headers-AllForwardable :
      (headers : HeaderMap) (found : AmzHeaders)
      → AllForwardable found
      → AllForwardable (scan_headers http headers found)
  unfolding scan_headers
  scan_headers-AllForwardable [] found all = all
  scan_headers-AllForwardable ((name, value) ∷ headers) found all =
      elim (Option-cases (http.to_str value)) [
        | inl e ↦ rw (e, scan_headers) (scan_headers-AllForwardable headers found all)
        | inr (v, e) ↦
            rw (e, scan_headers)
              (scan_headers-AllForwardable headers (take_header http name v found)
                (take_header-AllForwardable name v found all))
      ]

  -- Of all the headers of a request, those forwarded as they are have names in `x-amz-` that are
  -- not user metadata and are none of the eight headers of the client's own signature.
  pub scan_headers_forwardable :
      (headers : HeaderMap)
      → AllForwardable
          (scan_headers http headers (record { user_metadata = []; extra_amz_headers = [] }))
  scan_headers_forwardable headers = scan_headers-AllForwardable headers _ none_yet
