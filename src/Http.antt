-- ===== src/Http.antt =====
-- HTTP requests as the `http` crate gives them: the path and the query are still percent-encoded,
-- and the headers are field lines in the order of arrival, names in lowercase.
use tiny_s3_proxy.Text.{Bytes, bytes_eq}
use tiny_s3_proxy.Prelude.{Bool, List, Option, [], false, if◌then◌else◌, none, some, ℕ, ◌||◌, ◌∷◌}

pub record HttpCrates : Type 0 where
  -- percent_decode_str(s).decode_utf8_lossy()
  pub percent_decode : Bytes → Bytes
  -- HeaderValue::to_str().ok()
  pub to_str : Bytes → Option Bytes
  -- StatusCode::from_u16(code).is_ok()
  pub is_status : ℕ → Bool

abbrev pub HeaderMap : Type 0
HeaderMap = List (Bytes × Bytes)

pub record Request : Type 0 where
  pub method : Bytes
  pub path : Bytes
  pub query : Option Bytes
  pub headers : HeaderMap

-- headers.get_all(name)
unfoldable pub get_all : Bytes → HeaderMap → List Bytes
get_all name [] = []
get_all name ((n, v) ∷ headers) =
    let rest = get_all name headers in if bytes_eq n name then v ∷ rest else rest

-- headers.get(name): the first value
unfoldable pub get_first : Bytes → HeaderMap → Option Bytes
get_first name [] = none
get_first name ((n, v) ∷ headers) = if bytes_eq n name then some v else get_first name headers

-- headers.contains_key(name)
unfoldable pub has_header : Bytes → HeaderMap → Bool
has_header name [] = false
has_header name ((n, v) ∷ headers) = bytes_eq n name || has_header name headers

abbrev pub and_then {ℓ κ} : {A : Type ℓ} {B : Type κ} → Option A → (A → Option B) → Option B
and_then none f = none
and_then (some a) f = f a

abbrev pub unwrap_or {ℓ} : {A : Type ℓ} → Option A → A → A
unwrap_or none d = d
unwrap_or (some a) d = a
