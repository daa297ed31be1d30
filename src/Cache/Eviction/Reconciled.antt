-- ===== src/Cache/Eviction/Reconciled.antt =====
-- What a scan of the whole cache leaves in the counters (src/cache/eviction.rs).
use tiny_s3_proxy.Prelude.{
  All, List, Option, Result, [], arith, err, length, ok, ℕ, ◌∷◌, ◌≡◌, ◌≤◌, length-append, ◌⊎◌,
  All-append, Bool-cases, Option-cases, Result-cases, inl, inr, is_empty, refl, Ensures-at,
  Fails-at,
}
use tiny_s3_proxy.Text.{Bytes}
use tiny_s3_proxy.Cache.FileSystem.{FilePath, FileSystem}
use tiny_s3_proxy.Cache.Metadata.{CacheMeta}
use tiny_s3_proxy.Cache.Stats.{CacheStats}
use tiny_s3_proxy.Cache.Layout.{collect_hash_dirs_strict}
use tiny_s3_proxy.Cache.Scan.{bounded_parallel_scan, cache_hash_dir_scan_concurrency}
use tiny_s3_proxy.Cache.Scan.Invariant.{Extends, bounded_parallel_scan-Inv}
use tiny_s3_proxy.Cache.Scan.Failure.{TaskFails, bounded_parallel_scan-Fails}
use tiny_s3_proxy.Cache.Eviction as Ev
use tiny_s3_proxy.Cache.Eviction.{
  DeferredCleanup, EvictionCandidate, EvictionScanError, ScanFailureReason, deferred_cleanup,
  hash_dir_scan, hash_dir_walk, objects_dir_probe,
}
use tiny_s3_proxy.Cache.Eviction.Pass.{sum_sizes}
use tiny_s3_proxy.Cache.Eviction.Shard.{DirScanResult, scan_hash_dir_for_eviction}
use tiny_s3_proxy.Cache.Eviction.Tallied.{
  IsTallied, scan_hash_dir_for_eviction-IsTallied, sum_sizes-append,
}
use tiny_s3_proxy.Cache.Eviction.Reasons.{scan_hash_dir_for_eviction-Fails}
use tiny_s3_proxy.Cache.Eviction.Cleanup.{Tally}
use tiny_s3_proxy.Cache.Eviction.Cleaned.{IsAccounted, process_deferred_cleanups-Cleans}
use tiny_s3_proxy.Cache.Eviction.Collect.{
  ScanResult, aggregate, clean_and_reconcile, collect_candidates, join_failure, no_scan, reconcile,
  scan_shards, shard_task, walk_failure,
}

aggregate-IsAccounted :
    (results : List DirScanResult)
    → All IsTallied results
    → IsAccounted (aggregate results).0 × ((aggregate results).0.deferred_cleanup_failed ≡ 0)
unfolding aggregate sum_sizes
aggregate-IsAccounted [] tallied = ground arith
aggregate-IsAccounted (r ∷ results) tallied =
    let t = (aggregate results).0 in
    omega (
      arith,
      tallied.0,
      aggregate-IsAccounted results tallied.1,
      sum_sizes-append r.candidates t.candidates,
      length-append r.candidates t.candidates,
    )

-- The reasons that a scan can fail for.
abbrev pub IsScanReason : ScanFailureReason → Type 0
IsScanReason r = (r ≡ hash_dir_walk) ⊎ (r ≡ hash_dir_scan) ⊎ (r ≡ Ev.join) ⊎ (r ≡ deferred_cleanup)

-- After a scan the counters of bytes and entries are what it found, and the others as before; after
-- a scan that fails all are as before.
abbrev pub Reconciles :
    {W : Type 0} → CacheStats → (Result EvictionScanError ScanResult × CacheStats) × W → Type 0
Reconciles stats ((ok scan, stats'), w) =
    (sum_sizes scan.candidates ≤ scan.total_bytes)
    × (scan.deferred_cleanup_failed ≤ scan.deferred_cleanup_count)
    × (stats'
        ≡ record stats { total_bytes = scan.total_bytes; entry_count = length scan.candidates })
Reconciles stats ((err e, stats'), w) = IsScanReason e.reason × (stats' ≡ stats)

module _ {W : Type 0} (fs : FileSystem W) (from_slice : Bytes → Option CacheMeta)
    (task_failure : FilePath → W → Option Bytes) where
  clean_and_reconcile-Reconciles :
      (hash_dirs : ℕ) (t : Tally) (cleanups : List DeferredCleanup) (stats : CacheStats) (w : W)
      → IsAccounted t
      → t.deferred_cleanup_failed ≡ 0
      → Reconciles stats
          (clean_and_reconcile fs from_slice task_failure hash_dirs (t, cleanups) stats w)
  unfolding clean_and_reconcile reconcile
  clean_and_reconcile-Reconciles hash_dirs t cleanups stats w accounted none_failed =
      ground (arith, process_deferred_cleanups-Cleans fs from_slice cleanups t w accounted)

  abbrev Found : List DirScanResult → W → Type 0
  Found results w = All IsTallied results

  shard_task-Found :
      (path : FilePath) (results : List DirScanResult) (w : W)
      → All IsTallied results
      → Extends
          (shard_task fs from_slice task_failure)
          join_failure
          Found
          results
          (shard_task fs from_slice task_failure path w)
  unfolding shard_task
  shard_task-Found path results w tallied = elim (Option-cases (task_failure path w)) [
    | inr (text, panics) ↦ rw (panics, shard_task) tt
    | inl ends ↦ elim (Result-cases (scan_hash_dir_for_eviction fs from_slice path w).0) [
      | inl (fault, failed) ↦ rw (ends, shard_task, failed) tt
      | inr (r, went) ↦
          let here = scan_hash_dir_for_eviction-IsTallied fs from_slice path w in
          rw (ends, shard_task, went)
            (All-append IsTallied results (r ∷ []) tallied
              (Ensures-at (λ r w'. IsTallied r) _ r here went, tt))
    ]
  ]

  join_failure-IsScanReason : (text : Bytes) → IsScanReason (join_failure text).reason
  unfolding join_failure
  join_failure-IsScanReason text = inr (inr (inl refl))

  shard_task-Fails :
      (path : FilePath) (w : W)
      → TaskFails (λ e. IsScanReason e.reason) (shard_task fs from_slice task_failure path w)
  unfolding shard_task
  shard_task-Fails path w = ground (arith, scan_hash_dir_for_eviction-Fails fs from_slice path w)

  scan_shards-Reconciles :
      (schedule : List ℕ) (hash_dirs : List FilePath) (stats : CacheStats) (w : W)
      → Reconciles stats (scan_shards fs from_slice task_failure schedule hash_dirs stats w)
  unfolding scan_shards
  scan_shards-Reconciles schedule hash_dirs stats w =
      let task = shard_task fs from_slice task_failure in
      let limit = cache_hash_dir_scan_concurrency in
      let found =
        bounded_parallel_scan-Inv task join_failure Found shard_task-Found schedule hash_dirs limit
          w tt in
      let fails =
        bounded_parallel_scan-Fails task join_failure (λ e. IsScanReason e.reason)
          join_failure-IsScanReason shard_task-Fails schedule hash_dirs limit w in
      elim (Result-cases (bounded_parallel_scan task join_failure schedule hash_dirs limit w).0) [
        | inl (fault, failed) ↦
            rw (failed, scan_shards)
              (Fails-at (λ e. IsScanReason e.reason) _ fault fails failed, refl)
        | inr (results, went) ↦
            let (accounted, none_failed) =
              aggregate-IsAccounted results (Ensures-at Found _ results found went) in
            rw (went, scan_shards)
              (clean_and_reconcile-Reconciles (length hash_dirs) (aggregate results).0
                (aggregate results).1 stats _ accounted none_failed)
      ]

  -- Whatever the file system answers and in whatever order the tasks end.
  pub collect_candidates-Reconciles :
      (schedule : List ℕ) (objects_dir : FilePath) (stats : CacheStats) (w : W)
      → Reconciles stats
          (collect_candidates fs from_slice task_failure schedule objects_dir stats w)
  unfolding collect_candidates no_scan reconcile walk_failure sum_sizes
  collect_candidates-Reconciles schedule objects_dir stats w =
      let (walked, w1) = collect_hash_dirs_strict fs objects_dir w in
      elim (Result-cases walked) [
        | inl (fault, failed) ↦ rw (failed, collect_candidates) (inl refl, refl)
        | inr (hash_dirs, went) ↦ elim (Bool-cases (is_empty hash_dirs)) [
          | inl nothing ↦ rw (went, collect_candidates, nothing) (omega arith, omega arith, refl)
          | inr some_dirs ↦
              rw (went, collect_candidates, some_dirs)
                (scan_shards-Reconciles schedule hash_dirs stats w1)
        ]
      ]
