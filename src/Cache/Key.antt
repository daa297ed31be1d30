-- ===== src/Cache/Key.antt =====
-- Cache keys (src/cache/key.rs).
use tiny_s3_proxy.Prelude.{Bool, drop, take, ◌&&◌, ◌++◌, ◌∷◌, arith, true, ◌↔◌, ◌≡◌}
use tiny_s3_proxy.Text.{Bytes, bytes_eq}
use tiny_s3_proxy.Auth.Crypto.{Crypto}
use tiny_s3_proxy.Text.Numbers.{hex_encode_lower}
use tiny_s3_proxy.Text.Laws.{bytes_eq_iff}

pub record CacheKey : Type 0 where
  pub bucket : Bytes
  pub object_key : Bytes
  pub hash : Bytes

module _ (crypto : Crypto) where
  -- The first 16 bytes of the digest, in hexadecimal.
  unfoldable pub compute_hash : (bucket object_key : Bytes) → Bytes
  compute_hash bucket object_key =
      hex_encode_lower (take 16 (crypto.sha256 (bucket ++ (0 ∷ object_key))))

  unfoldable pub new : (bucket object_key : Bytes) → CacheKey
  unfolding compute_hash
  new bucket object_key = record {
    bucket = bucket;
    object_key = object_key;
    hash = compute_hash bucket object_key;
  }

-- The first two digits, and the next two.
unfoldable pub dir_prefix : CacheKey → Bytes × Bytes
dir_prefix key = (take 2 key.hash, take 2 (drop 2 key.hash))

-- Derived equality: all three fields.
unfoldable pub key_eq : CacheKey → CacheKey → Bool
key_eq a b =
    bytes_eq a.bucket b.bucket && bytes_eq a.object_key b.object_key && bytes_eq a.hash b.hash

pub key_eq_iff : (a b : CacheKey) → (key_eq a b ≡ true) ↔ (a ≡ b)
unfolding key_eq
key_eq_iff a b = ground (
  arith,
  bytes_eq_iff a.bucket b.bucket,
  bytes_eq_iff a.object_key b.object_key,
  bytes_eq_iff a.hash b.hash,
)
