-- ===== src/Handlers/AwsChunked/Policy.antt =====
-- The key that the chunks of a verified request are verified under (src/handlers/aws_chunked.rs).
use tiny_s3_proxy.Handlers.AwsChunked.Mode.{
  policy_of_context, signature_policy_for_decode, strict_policy,
}
use tiny_s3_proxy.Auth.Verified.{
  VerifiedRequest, hmac_context, ecdsa_context, hmac_key, hmac_signing_key, sigv4a_verifying_key,
  credential_scope_string, ecdsa_key, VerifiedSigningContext,
}
use tiny_s3_proxy.S3.AwsChunked.Types.{
  DecoderMode, SignedChunkAlgorithm, non_trailer, ChunkSignaturePolicy, signed_trailer,
  unsigned_trailer, verify_hmac, verify_ecdsa, signed_chunk_algorithm,
}
use tiny_s3_proxy.Text.{Bytes}
use tiny_s3_proxy.S3.AwsChunked.Types.{
  hmac_sha256, ecdsa_p256, non_trailer, signed_trailer, unsigned_trailer, verify_hmac, verify_ecdsa,
}
use tiny_s3_proxy.Auth.Verified.{hmac_key, ecdsa_key, hmac_signing_key, sigv4a_verifying_key}
use mathlib.Core.Path.{subst}
use tiny_s3_proxy.Prelude.{
  Option, none, some, true, ok, ◌≡◌, refl, arith, inl, inr, some_injective, ◌⊎◌,
}

-- A policy that starts from the key, the date, the scope and the signature of a verified request.
abbrev pub SeededBy : VerifiedRequest → SignedChunkAlgorithm → ChunkSignaturePolicy → Type 0
SeededBy v hmac_sha256 policy =
    (k : Bytes) × (v.signing_context ≡ hmac_key k)
    × (policy
        ≡ verify_hmac (record {
          signing_key = k;
          amz_date = v.amz_date;
          scope = credential_scope_string v.credential_scope;
          previous_signature_hex = v.request_signature_hex;
        }))
SeededBy v ecdsa_p256 policy =
    (k : Bytes) × (v.signing_context ≡ ecdsa_key k)
    × (policy
        ≡ verify_ecdsa (record {
          verifying_key = k;
          amz_date = v.amz_date;
          scope = credential_scope_string v.credential_scope;
          previous_signature_hex = v.request_signature_hex;
        }))

key_cases :
    (c : VerifiedSigningContext)
    → ((k : Bytes) × (c ≡ hmac_key k)) ⊎ ((k : Bytes) × (c ≡ ecdsa_key k))
key_cases (hmac_key k) = inl (k, refl)
key_cases (ecdsa_key k) = inr (k, refl)

policy_of_context-SeededBy :
    (a : SignedChunkAlgorithm) (v : VerifiedRequest) (request_id : Bytes)
    (policy : ChunkSignaturePolicy)
    → policy_of_context a v request_id ≡ ok policy
    → SeededBy v a policy
unfolding policy_of_context hmac_context ecdsa_context hmac_signing_key sigv4a_verifying_key
policy_of_context-SeededBy hmac_sha256 v request_id policy h = elim (key_cases v.signing_context) [
  | inl (k, e) ↦ (k, e, ground (arith, e, h))
  | inr (k, e) ↦ absurd (ground (arith, e, h))
]
policy_of_context-SeededBy ecdsa_p256 v request_id policy h = elim (key_cases v.signing_context) [
  | inl (k, e) ↦ absurd (ground (arith, e, h))
  | inr (k, e) ↦ (k, e, ground (arith, e, h))
]

-- Under strict verification, the policy of a body with signed chunks.
pub strict_policy-SeededBy :
    (mode : DecoderMode) (a : SignedChunkAlgorithm) (verified : Option VerifiedRequest)
    (request_id : Bytes) (policy : ChunkSignaturePolicy)
    → signed_chunk_algorithm mode ≡ some a
    → signature_policy_for_decode mode verified true request_id ≡ ok policy
    → (v : VerifiedRequest) × (verified ≡ some v) × SeededBy v a policy
unfolding signature_policy_for_decode strict_policy signed_chunk_algorithm
strict_policy-SeededBy mode a none request_id policy signed h = absurd (ground (arith, h))
strict_policy-SeededBy (non_trailer b) a (some v) request_id policy signed h = (
  v,
  refl,
  subst (λ x. SeededBy v x policy) (some_injective signed)
      (policy_of_context-SeededBy b v request_id policy h),
)
strict_policy-SeededBy (signed_trailer _ _ b) a (some v) request_id policy signed h = (
  v,
  refl,
  subst (λ x. SeededBy v x policy) (some_injective signed)
      (policy_of_context-SeededBy b v request_id policy h),
)
strict_policy-SeededBy (unsigned_trailer _ _) a (some v) request_id policy signed h =
    absurd (ground (arith, signed))
