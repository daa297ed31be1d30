-- ===== src/Error.antt =====
-- The proxy's errors (src/error.rs). The boxed `source` of an error, a value that is only printed,
-- is left out.
use tiny_s3_proxy.Prelude.{Bool, false, if◌then◌else◌, leb, true, ℕ}
use tiny_s3_proxy.Text.{Bytes, codes}
use tiny_s3_proxy.Http.{HttpCrates}

pub data ProxyError : Type 0 where
  backend cache : (operation : Bytes) → ProxyError
  auth invalid_request : (message : Bytes) → ProxyError
  unsupported_operation timeout : (operation : Bytes) → ProxyError
  upstream_s3 : (status_code : ℕ) (s3_code message operation : Bytes) → ProxyError
  internal : ProxyError

unfoldable pub status_code : HttpCrates → ProxyError → ℕ
status_code http (backend _) = 502
status_code http (cache _) = 500
status_code http (auth _) = 403
status_code http (invalid_request _) = 400
status_code http (unsupported_operation _) = 501
status_code http (timeout _) = 504
status_code http (upstream_s3 code _ _ _) = if http.is_status code then code else 502
status_code http internal = 500

unfoldable pub is_transient : ProxyError → Bool
is_transient (backend _) = true
is_transient (timeout _) = true
is_transient (upstream_s3 code _ _ _) = leb 500 code
is_transient _ = false

unfoldable pub s3_error_code : ProxyError → Bytes
s3_error_code (backend _) = codes "InternalError"
s3_error_code (cache _) = codes "InternalError"
s3_error_code (auth _) = codes "AccessDenied"
s3_error_code (invalid_request _) = codes "InvalidRequest"
s3_error_code (unsupported_operation _) = codes "NotImplemented"
s3_error_code (timeout _) = codes "RequestTimeout"
s3_error_code (upstream_s3 _ s3_code _ _) = s3_code
s3_error_code internal = codes "InternalError"
