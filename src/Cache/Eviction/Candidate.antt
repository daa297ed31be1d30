-- ===== src/Cache/Eviction/Candidate.antt =====
-- The eviction of one candidate (src/cache/eviction.rs).
use tiny_s3_proxy.Prelude.{
  Bool, Option, Result, err, false, if◌then◌else◌, min, none, not, ok, some, true, ℕ, ◌&&◌, ◌+◌,
  ◌-◌, ◌==◌, ◌^◌, ◌||◌,
}
use tiny_s3_proxy.Text.{Bytes, codes}
use tiny_s3_proxy.Cache.FileSystem.{FileSystem, IoError, is_not_found, with_extension}
use tiny_s3_proxy.Cache.Metadata.{CacheMeta}
use tiny_s3_proxy.Cache.Stats.{CacheStats}
use tiny_s3_proxy.Cache.Eviction.{
  EvictionCandidate, known_size, remaining_bytes_after_failed_remove,
}

-- The variables of the pass that an eviction changes.
pub record Budget : Type 0 where
  pub current_size : ℕ
  pub evicted : ℕ
  pub stats : CacheStats

-- u64::saturating_add
abbrev pub saturating_add : ℕ → ℕ → ℕ
saturating_add a b = min (a + b) (2 ^ 64 - 1)

-- The candidate's size is replaced by a measured one, if both parts of that are known.
unfoldable pub remeasured : EvictionCandidate → (body meta : Option ℕ) → Budget → Budget
remeasured candidate (some b) (some m) budget = record budget {
  current_size = saturating_add (budget.current_size - candidate.size) (b + m);
}
remeasured candidate _ _ budget = budget

-- Both files are off disk.
unfoldable pub count_evicted : EvictionCandidate → Budget → Budget
count_evicted candidate budget =
    let stats : CacheStats = record budget.stats {
      entry_count = budget.stats.entry_count - 1;
      total_bytes = budget.stats.total_bytes - candidate.size;
    } in
    record budget {
      current_size = budget.current_size - candidate.size;
      evicted = budget.evicted + 1;
      stats = stats;
    }

unfoldable pub identity_changed : EvictionCandidate → CacheMeta → Bool
identity_changed candidate meta =
    not (meta.fill_id == candidate.fill_id)
    || not (meta.last_accessed_at == candidate.last_accessed_at)

unfoldable pub is_gone : Result IoError (Unit {0}) → Bool
is_gone (ok _) = true
is_gone (err e) = is_not_found e

module _ {W : Type 0} (fs : FileSystem W) where
  -- Case 1: the entry was replaced since the scan.
  unfoldable pub remeasure_changed : EvictionCandidate → Budget → W → Budget × W
  unfolding remeasured
  remeasure_changed candidate budget w =
      let (body, w1) = fs.metadata candidate.body_path w in
      let (meta, w2) = fs.metadata candidate.meta_path w1 in
      (remeasured candidate (known_size body) (known_size meta) budget, w2)

  unfoldable pub clear_poison : EvictionCandidate → (either_gone : Bool) → W → W
  clear_poison candidate true w =
      (fs.remove_file (with_extension candidate.body_path (codes "poisoned")) w).1
  clear_poison candidate false w = w

  unfoldable pub settle : EvictionCandidate → (body_gone meta_gone : Bool) → Budget → W → Budget × W
  unfolding count_evicted remeasured remaining_bytes_after_failed_remove
  settle candidate body_gone meta_gone budget w =
      let (body, w1) = remaining_bytes_after_failed_remove fs body_gone candidate.body_path w in
      let (meta, w2) = remaining_bytes_after_failed_remove fs meta_gone candidate.meta_path w1 in
      if body_gone && meta_gone
      then (count_evicted candidate budget, w)
      else (remeasured candidate body meta budget, w2)

  -- Cases 2, 3 and 4.
  unfoldable pub delete_candidate : EvictionCandidate → Budget → W → Budget × W
  unfolding settle clear_poison is_gone
  delete_candidate candidate budget w =
      let (body_res, w1) = fs.remove_file candidate.body_path w in
      let (meta_res, w2) = fs.remove_file candidate.meta_path w1 in
      let body_gone = is_gone body_res in
      let meta_gone = is_gone meta_res in
      settle candidate body_gone meta_gone budget
        (clear_poison candidate (body_gone || meta_gone) w2)

module _ {W : Type 0} (fs : FileSystem W) (from_slice : Bytes → Option CacheMeta) where
  unfoldable pub try_evict_candidate : EvictionCandidate → Budget → W → Budget × W
  unfolding remeasure_changed delete_candidate identity_changed
  try_evict_candidate candidate budget w =
      let (r, w1) = fs.read candidate.meta_path w in
      elim r [
        | ok meta_bytes ↦ elim (from_slice meta_bytes) [
          | some meta ↦
              if identity_changed candidate meta
              then remeasure_changed fs candidate budget w1
              else delete_candidate fs candidate budget w1
          | none ↦ delete_candidate fs candidate budget w1
        ]
        | err e ↦ if is_not_found e then delete_candidate fs candidate budget w1 else (budget, w1)
      ]
