-- ===== src/Cache/Stats.antt =====
-- The counters of the cache (src/cache/mod.rs), each an atomic of 64 bits.
use tiny_s3_proxy.Prelude.{ℕ}

pub record CacheStats : Type 0 where
  pub total_bytes : ℕ
  pub entry_count : ℕ
  pub hit_count : ℕ
  pub miss_count : ℕ
  pub fill_count : ℕ
  pub eviction_count : ℕ

unfoldable pub no_stats : CacheStats
no_stats = record {
  total_bytes = 0;
  entry_count = 0;
  hit_count = 0;
  miss_count = 0;
  fill_count = 0;
  eviction_count = 0;
}
