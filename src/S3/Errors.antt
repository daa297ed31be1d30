-- ===== src/S3/Errors.antt =====
-- Error responses (src/s3/errors.rs). The escape of texts in XML is quick-xml's, a parameter.
use tiny_s3_proxy.Prelude.{Bool, List, Option, String, [], if◌then◌else◌, none, some, ℕ, ◌++◌, ◌∷◌}
use tiny_s3_proxy.Text.{Bytes, codes}
use tiny_s3_proxy.Http.{HttpCrates}
use tiny_s3_proxy.Error.{
  ProxyError, auth, backend, cache, internal, invalid_request, s3_error_code, status_code, timeout,
  unsupported_operation, upstream_s3,
}

pub record S3Error : Type 0 where
  pub http_status : ℕ
  pub code : Bytes
  pub message : Bytes
  pub resource : Option Bytes
  pub request_id : Bytes

-- The message for the client: nothing of an inner error but the backend's S3 code.
unfoldable pub client_message : ProxyError → Bytes
client_message (backend _) = codes "A backend error occurred. Please retry the request."
client_message (timeout _) = codes "The request to the backend timed out. Please retry."
client_message (upstream_s3 _ s3_code _ _) = codes "The backend returned an error: " ++ s3_code
client_message (auth _) = codes "Access Denied"
client_message (cache _) = codes "An internal cache error occurred."
client_message internal = codes "An internal error occurred."
client_message (invalid_request message) = codes "invalid request: " ++ message
client_message (unsupported_operation operation) = codes "unsupported operation: " ++ operation

unfoldable pub from_proxy_error :
    HttpCrates → ProxyError → (request_id : Bytes) → (resource : Option Bytes) → S3Error
unfolding client_message status_code s3_error_code
from_proxy_error http error request_id resource = record {
  http_status = status_code http error;
  code = s3_error_code error;
  message = client_message error;
  resource = resource;
  request_id = request_id;
}

abbrev tagged : (escape : Bytes → Bytes) → String → Bytes → Bytes
tagged escape tag text =
    codes "<" ++ codes tag ++ codes ">" ++ escape text ++ codes "</" ++ codes tag ++ codes ">"

unfoldable pub to_xml : (escape : Bytes → Bytes) → S3Error → Bytes
to_xml escape e =
    codes "<?xml version=\"1.0\" encoding=\"UTF-8\"?>\n<Error>"
    ++ tagged escape "Code" e.code
    ++ tagged escape "Message" e.message
    ++ elim e.resource [ none ↦ [] | some resource ↦ tagged escape "Resource" resource ]
    ++ tagged escape "RequestId" e.request_id
    ++ codes "</Error>"

-- The errors without a resource.
abbrev plain : (http_status : ℕ) → String → (message request_id : Bytes) → S3Error
plain http_status code message request_id = record {
  http_status = http_status;
  code = codes code;
  message = message;
  resource = none;
  request_id = request_id;
}

unfoldable pub no_such_key : (key request_id : Bytes) → S3Error
no_such_key key request_id =
    let e = plain 404 "NoSuchKey" (codes "The specified key does not exist.") request_id in
    record e { resource = some key }

unfoldable pub no_such_bucket : (bucket request_id : Bytes) → S3Error
no_such_bucket bucket request_id =
    let e = plain 404 "NoSuchBucket" (codes "The specified bucket does not exist.") request_id in
    record e { resource = some bucket }

unfoldable pub access_denied : (request_id : Bytes) → S3Error
access_denied = plain 403 "AccessDenied" (codes "Access Denied")

unfoldable pub internal_error : (message request_id : Bytes) → S3Error
internal_error = plain 500 "InternalError"

unfoldable pub entity_too_large : (message request_id : Bytes) → S3Error
entity_too_large = plain 400 "EntityTooLarge"

unfoldable pub malformed_xml : (message request_id : Bytes) → S3Error
malformed_xml = plain 400 "MalformedXML"

unfoldable pub invalid_argument : (message request_id : Bytes) → S3Error
invalid_argument = plain 400 "InvalidArgument"

unfoldable pub invalid_chunk_size : (message request_id : Bytes) → S3Error
invalid_chunk_size = plain 400 "InvalidChunkSizeError"

unfoldable pub incomplete_body : (message request_id : Bytes) → S3Error
incomplete_body = plain 400 "IncompleteBody"

-- S3Error::invalid_request
unfoldable pub bad_request : (message request_id : Bytes) → S3Error
bad_request = plain 400 "InvalidRequest"

unfoldable pub invalid_digest : (message request_id : Bytes) → S3Error
invalid_digest = plain 400 "InvalidDigest"

unfoldable pub bad_digest : (message request_id : Bytes) → S3Error
bad_digest = plain 400 "BadDigest"

unfoldable pub unsupported_signature : (message request_id : Bytes) → S3Error
unsupported_signature = plain 400 "UnsupportedSignature"

unfoldable pub signature_does_not_match : (message request_id : Bytes) → S3Error
signature_does_not_match = plain 403 "SignatureDoesNotMatch"

unfoldable pub request_time_too_skewed : (message request_id : Bytes) → S3Error
request_time_too_skewed = plain 403 "RequestTimeTooSkewed"

unfoldable pub missing_authentication_token : (message request_id : Bytes) → S3Error
missing_authentication_token = plain 403 "MissingAuthenticationToken"

unfoldable pub invalid_access_key_id : (message request_id : Bytes) → S3Error
invalid_access_key_id = plain 403 "InvalidAccessKeyId"

unfoldable pub authorization_header_malformed : (message request_id : Bytes) → S3Error
authorization_header_malformed = plain 400 "AuthorizationHeaderMalformed"

unfoldable pub invalid_token : (message request_id : Bytes) → S3Error
invalid_token = plain 400 "InvalidToken"

unfoldable pub expired_token : (message request_id : Bytes) → S3Error
expired_token = plain 400 "ExpiredToken"

unfoldable pub not_implemented : (operation request_id : Bytes) → S3Error
not_implemented operation =
    plain 501 "NotImplemented"
      (codes "The operation '" ++ operation ++ codes "' is not implemented.")

-- The chain of an error and its sources, each of which is a `LengthLimitError` or not.
unfoldable pub from_body_error : (chain : List Bool) → (request_id : Bytes) → S3Error
unfolding entity_too_large
from_body_error [] request_id =
    plain 400 "IncompleteBody" (codes "The request body could not be read.") request_id
from_body_error (is_limit ∷ sources) request_id =
    let rest = from_body_error sources request_id in
    if is_limit
    then entity_too_large (codes "request body exceeded the configured size limit") request_id
    else rest
