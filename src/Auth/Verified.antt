-- ===== src/Auth/Verified.antt =====
-- What the verification of a request leaves for its handlers (src/auth/verified.rs), without the
-- payload hash, and the contexts for chunk signatures that are made of it
-- (src/auth/sigv4/streaming.rs, src/auth/sigv4a/streaming.rs).
use tiny_s3_proxy.Prelude.{List, Option, none, some, ◌++◌}
use tiny_s3_proxy.Text.{Bytes, codes}
use tiny_s3_proxy.Auth.SigV4.Streaming.{StreamingSigV4Context}
use tiny_s3_proxy.Auth.SigV4a.Streaming.{StreamingSigV4aContext}

pub data VerifiedCredentialScope : Type 0 where
  sigv4 : (date_yyyymmdd region service : Bytes) → VerifiedCredentialScope
  sigv4a : (date_yyyymmdd service : Bytes) → VerifiedCredentialScope

unfoldable pub credential_scope_string : VerifiedCredentialScope → Bytes
credential_scope_string (sigv4 date region service) =
    date ++ codes "/" ++ region ++ codes "/" ++ service ++ codes "/aws4_request"
credential_scope_string (sigv4a date service) =
    date ++ codes "/" ++ service ++ codes "/aws4_request"

-- The key under which the request was verified.
pub data VerifiedSigningContext : Type 0 where
  hmac_key : Bytes → VerifiedSigningContext
  ecdsa_key : Bytes → VerifiedSigningContext

pub record VerifiedRequest : Type 0 where
  pub access_key_id : Bytes
  pub credential_scope : VerifiedCredentialScope
  pub signed_headers : List Bytes
  pub request_signature_hex : Bytes
  pub signing_context : VerifiedSigningContext
  pub amz_date : Bytes

unfoldable pub hmac_signing_key : VerifiedSigningContext → Option Bytes
hmac_signing_key (hmac_key k) = some k
hmac_signing_key (ecdsa_key k) = none

unfoldable pub sigv4a_verifying_key : VerifiedSigningContext → Option Bytes
sigv4a_verifying_key (ecdsa_key k) = some k
sigv4a_verifying_key (hmac_key k) = none

-- StreamingSigV4Context::from_verified
unfoldable pub hmac_context : VerifiedRequest → Option StreamingSigV4Context
unfolding hmac_signing_key credential_scope_string
hmac_context v = elim (hmac_signing_key v.signing_context) [
  | none ↦ none
  | some k ↦ some (record {
    signing_key = k;
    amz_date = v.amz_date;
    scope = credential_scope_string v.credential_scope;
    previous_signature_hex = v.request_signature_hex;
  })
]

-- StreamingSigV4aContext::from_verified
unfoldable pub ecdsa_context : VerifiedRequest → Option StreamingSigV4aContext
unfolding sigv4a_verifying_key credential_scope_string
ecdsa_context v = elim (sigv4a_verifying_key v.signing_context) [
  | none ↦ none
  | some k ↦ some (record {
    verifying_key = k;
    amz_date = v.amz_date;
    scope = credential_scope_string v.credential_scope;
    previous_signature_hex = v.request_signature_hex;
  })
]
