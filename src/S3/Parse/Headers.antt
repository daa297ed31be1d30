-- ===== src/S3/Parse/Headers.antt =====
-- The headers that `parse_request` extracts (src/s3/parse.rs).
pub mod Signing
use tiny_s3_proxy.Text.{Bytes, bytes_eq, codes, starts_with, strip_prefix}
use tiny_s3_proxy.Prelude.{
  Bool, List, Option, String, [], false, if◌then◌else◌, is_empty, none, not, some, ℕ, ◌&&◌, ◌++◌,
  ◌||◌, ◌∷◌,
}
use tiny_s3_proxy.Text.Numbers.{ℤ, pos, negsuc, parse_i64}
use tiny_s3_proxy.Dict
use tiny_s3_proxy.Dict.{Dict}
use tiny_s3_proxy.Http.{HttpCrates, HeaderMap, get_first, get_all, and_then}

abbrev pub signing_headers : List String
signing_headers =
    "x-amz-date" ∷ "x-amz-content-sha256" ∷ "x-amz-security-token" ∷ "x-amz-credential"
    ∷ "x-amz-signature" ∷ "x-amz-algorithm" ∷ "x-amz-signedheaders" ∷ "x-amz-decoded-content-length"
    ∷ []

-- matches!(name, "…" | "…")
unfoldable pub is_one_of : List String → Bytes → Bool
is_one_of [] name = false
is_one_of (n ∷ ns) name = bytes_eq name (codes n) || is_one_of ns name

abbrev as_length : ℤ → Option ℕ
as_length (pos n) = some n
as_length (negsuc n) = none

abbrev push_some : Option Bytes → List Bytes → List Bytes
push_some none parts = parts
push_some (some s) parts = s ∷ parts

-- parts.join(", ")
unfoldable pub join_comma : List Bytes → Bytes
join_comma [] = []
join_comma (s ∷ []) = s
join_comma (s ∷ t ∷ parts) = s ++ (b',' ∷ b' ' ∷ join_comma (t ∷ parts))

pub record AmzHeaders : Type 0 where
  pub user_metadata : Dict Bytes
  pub extra_amz_headers : Dict Bytes

module _ (http : HttpCrates) where
  unfoldable pub header_str : HeaderMap → String → Option Bytes
  header_str headers name = and_then (get_first (codes name) headers) http.to_str

  decoded : List Bytes → List Bytes
  decoded [] = []
  decoded (v ∷ vs) = push_some (http.to_str v) (decoded vs)

  unfoldable pub header_str_combined : HeaderMap → String → Option Bytes
  unfolding decoded
  header_str_combined headers name =
      let parts = decoded (get_all (codes name) headers) in
      if is_empty parts then none else some (join_comma parts)

  unfoldable pub content_length : HeaderMap → Option ℕ
  unfolding header_str
  content_length headers =
      and_then (and_then (header_str headers "content-length") parse_i64) as_length

  -- One header, whose value has decoded, put into the map that takes it.
  unfoldable pub take_header : Bytes → Bytes → AmzHeaders → AmzHeaders
  take_header name v found = elim (strip_prefix name (codes "x-amz-meta-")) [
    | some bare_key ↦ record found { user_metadata = Dict.insert bare_key v found.user_metadata }
    | none ↦
        if starts_with name (codes "x-amz-") && not (is_one_of signing_headers name)
        then record found { extra_amz_headers = Dict.insert name v found.extra_amz_headers }
        else found
  ]

  unfoldable pub scan_headers : HeaderMap → AmzHeaders → AmzHeaders
  unfolding take_header
  scan_headers [] found = found
  scan_headers ((name, value) ∷ headers) found = elim (http.to_str value) [
    | none ↦ scan_headers headers found
    | some v ↦ scan_headers headers (take_header name v found)
  ]

  abbrev insert_some : String → Option Bytes → Dict Bytes → Dict Bytes
  insert_some name none m = m
  insert_some name (some v) m = Dict.insert (codes name) v m

  -- The standard content headers: three of lists, then two of one value.
  unfoldable pub content_headers : HeaderMap → Dict Bytes
  unfolding header_str header_str_combined
  content_headers headers =
      let combined = λ (name : String). insert_some name (header_str_combined headers name) in
      let single = λ (name : String). insert_some name (header_str headers name) in
      single "expires" (
        single "content-disposition"
          (combined "cache-control" (combined "content-language" (combined "content-encoding" []))))
