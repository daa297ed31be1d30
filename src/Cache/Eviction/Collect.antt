-- ===== src/Cache/Eviction/Collect.antt =====
-- The scan of the whole cache in an eviction pass (src/cache/eviction.rs).
use tiny_s3_proxy.Prelude.{
  List, Option, Result, [], err, if◌then◌else◌, is_empty, length, none, ok, some, ℕ, ◌++◌, ◌+◌, ◌∷◌,
}
use tiny_s3_proxy.Text.{Bytes, codes}
use tiny_s3_proxy.Cache.FileSystem.{FilePath, FileSystem, IoError, other}
use tiny_s3_proxy.Cache.Layout.{collect_hash_dirs_strict}
use tiny_s3_proxy.Cache.Metadata.{CacheMeta}
use tiny_s3_proxy.Cache.Scan.{
  Joined, bounded_parallel_scan, cache_hash_dir_scan_concurrency, finished, join_error,
}
use tiny_s3_proxy.Cache.Stats.{CacheStats}
use tiny_s3_proxy.Cache.Eviction.{
  DeferredCleanup, EvictionCandidate, EvictionScanError, hash_dir_walk,
}
use tiny_s3_proxy.Cache.Eviction as Ev
use tiny_s3_proxy.Cache.Eviction.Shard.{DirScanResult, scan_hash_dir_for_eviction}
use tiny_s3_proxy.Cache.Eviction.Cleanup.{Tally, process_deferred_cleanups}

pub record ScanResult : Type 0 where
  pub candidates : List EvictionCandidate
  pub total_bytes : ℕ
  pub hash_dirs : ℕ
  pub deferred_cleanup_count : ℕ
  pub deferred_cleanup_failed : ℕ

unfoldable pub no_scan : ScanResult
no_scan = record {
  candidates = [];
  total_bytes = 0;
  hash_dirs = 0;
  deferred_cleanup_count = 0;
  deferred_cleanup_failed = 0;
}

-- The two counters that a scan overwrites.
unfoldable pub reconcile : (total_bytes entry_count : ℕ) → CacheStats → CacheStats
reconcile total_bytes entry_count stats = record stats {
  total_bytes = total_bytes;
  entry_count = entry_count;
}

-- Phase 3: the results of all shards together.
unfoldable pub aggregate : List DirScanResult → Tally × List DeferredCleanup
aggregate [] = (
  record {
    candidates = [];
    scan_total_bytes = 0;
    scan_entry_count = 0;
    deferred_cleanup_failed = 0;
  },
  [],
)
aggregate (result ∷ results) =
    let (t, cleanups) = aggregate results in
    let sum : Tally = record {
      candidates = result.candidates ++ t.candidates;
      scan_total_bytes = result.total_bytes + t.scan_total_bytes;
      scan_entry_count = result.entry_count + t.scan_entry_count;
      deferred_cleanup_failed = 0;
    } in
    (sum, result.deferred_cleanups ++ cleanups)

unfoldable pub join_failure : Bytes → EvictionScanError
join_failure text =
    let e : IoError = record {
      kind = other;
      message = codes "eviction hash-dir scan task failed: " ++ text;
    } in
    record { reason = Ev.join; source = e }

unfoldable pub walk_failure : IoError → EvictionScanError
walk_failure e = record { reason = hash_dir_walk; source = e }

module _ {W : Type 0} (fs : FileSystem W) (from_slice : Bytes → Option CacheMeta)
    (task_failure : FilePath → W → Option Bytes) where
  -- A task that panics, or that the runtime cancels, is joined as an error with this text.
  unfoldable pub shard_task : FilePath → W → Joined EvictionScanError DirScanResult × W
  unfolding scan_hash_dir_for_eviction
  shard_task dir w =
      let (r, w1) = scan_hash_dir_for_eviction fs from_slice dir w in
      elim (task_failure dir w) [ none ↦ (finished r, w1) | some text ↦ (join_error text, w) ]

  abbrev Collected : Type 0
  Collected = (Result EvictionScanError ScanResult × CacheStats) × W

  -- Phase 4, and the reconciliation.
  unfoldable pub clean_and_reconcile :
      (hash_dirs : ℕ) → Tally × List DeferredCleanup → CacheStats → W → Collected
  unfolding process_deferred_cleanups reconcile
  clean_and_reconcile hash_dirs (t, cleanups) stats w =
      let ((r, t1), w1) = process_deferred_cleanups fs from_slice cleanups t w in
      let scan : ScanResult = record {
        candidates = t1.candidates;
        total_bytes = t1.scan_total_bytes;
        hash_dirs = hash_dirs;
        deferred_cleanup_count = length cleanups;
        deferred_cleanup_failed = t1.deferred_cleanup_failed;
      } in
      elim r [
        | err e ↦ ((err e, stats), w1)
        | ok _ ↦ ((ok scan, reconcile t1.scan_total_bytes t1.scan_entry_count stats), w1)
      ]

  -- Phases 2 and 3.
  unfoldable pub scan_shards : (schedule : List ℕ) → List FilePath → CacheStats → W → Collected
  unfolding clean_and_reconcile aggregate shard_task bounded_parallel_scan join_failure
  scan_shards schedule hash_dirs stats w =
      let (scanned, w1) =
        bounded_parallel_scan shard_task join_failure schedule hash_dirs
          cache_hash_dir_scan_concurrency w in
      elim scanned [
        | err e ↦ ((err e, stats), w1)
        | ok results ↦ clean_and_reconcile (length hash_dirs) (aggregate results) stats w1
      ]

  unfoldable pub collect_candidates :
      (schedule : List ℕ) → (objects_dir : FilePath) → CacheStats → W → Collected
  unfolding scan_shards collect_hash_dirs_strict reconcile walk_failure no_scan
  collect_candidates schedule objects_dir stats w =
      let (walked, w1) = collect_hash_dirs_strict fs objects_dir w in
      elim walked [
        | err e ↦ ((err (walk_failure e), stats), w1)
        | ok hash_dirs ↦
            if is_empty hash_dirs
            then ((ok no_scan, reconcile 0 0 stats), w1)
            else scan_shards schedule hash_dirs stats w1
      ]
