-- ===== src/Cache/Policy.antt =====
-- Which objects may be cached (src/cache/policy.rs).
use tiny_s3_proxy.Text.{Bytes, starts_with}
use tiny_s3_proxy.Prelude.{Bool, List, any, leb, ℕ}

pub record CachePolicy : Type 0 where
  pub cacheable_prefixes : List Bytes
  pub max_object_bytes : ℕ

unfoldable pub is_cacheable : CachePolicy → Bytes → Bool
is_cacheable policy key = any (λ p. starts_with key p) policy.cacheable_prefixes

unfoldable pub is_size_cacheable : CachePolicy → ℕ → Bool
is_size_cacheable policy size = leb size policy.max_object_bytes
