-- ===== src/Cache/Eviction/Composed.antt =====
-- The scan and the evictions of a pass together (src/cache/eviction.rs): the candidates keep within
-- their sizes from the scan of their shard to the end of the pass.
use tiny_s3_proxy.Prelude.{
  All, All-append, List, Option, Result, [], arith, err, length, ok, ℕ, ◌+◌, ◌∷◌, ◌≡◌, ◌≤◌, ◌<◌,
  ◌^◌, Bool-cases, Option-cases, Result-cases, inl, inr, is_empty, Ensures-at,
}
use tiny_s3_proxy.Text.{Bytes}
use tiny_s3_proxy.Cache.FileSystem.{FilePath, FileSystem}
use tiny_s3_proxy.Cache.FileSystem.Lawful.{IsLawful}
use tiny_s3_proxy.Cache.Metadata.{CacheMeta}
use tiny_s3_proxy.Cache.Stats.{CacheStats}
use tiny_s3_proxy.Cache.Layout.{collect_hash_dirs_strict}
use tiny_s3_proxy.Cache.Scan.{bounded_parallel_scan, cache_hash_dir_scan_concurrency}
use tiny_s3_proxy.Cache.Scan.Invariant.{Extends, bounded_parallel_scan-Inv}
use tiny_s3_proxy.Cache.Eviction.{DeferredCleanup, EvictionScanError}
use tiny_s3_proxy.Cache.Eviction.Pass.{evict_over_budget, sum_sizes}
use tiny_s3_proxy.Cache.Eviction.Shard.{DirScanResult, scan_hash_dir_for_eviction}
use tiny_s3_proxy.Cache.Eviction.Cleanup.{Tally}
use tiny_s3_proxy.Cache.Eviction.Budget.{Fits, Shrinks, sum_left}
use tiny_s3_proxy.Cache.Eviction.Covered.{Fits-Shrinks, evict_over_budget-covers}
use tiny_s3_proxy.Cache.Eviction.Measured.{Fits-append, scan_hash_dir_for_eviction-Measures}
use tiny_s3_proxy.Cache.Eviction.Recovered.{process_deferred_cleanups-Keeps}
use tiny_s3_proxy.Cache.Eviction.Reconciled.{collect_candidates-Reconciles}
use tiny_s3_proxy.Cache.Eviction.Collect.{
  ScanResult, aggregate, clean_and_reconcile, collect_candidates, join_failure, no_scan,
  scan_shards, shard_task,
}

module _ {W : Type 0} (bytes : FilePath → W → ℕ) where
  -- The candidates of every shard fit.
  abbrev AllFit : List DirScanResult → W → Type 0
  AllFit results w = All (λ r. Fits bytes r.candidates w) results

  AllFit-Shrinks :
      (results : List DirScanResult) (w w' : W)
      → Shrinks bytes w w'
      → AllFit results w
      → AllFit results w'
  AllFit-Shrinks [] w w' shrinks fit = tt
  AllFit-Shrinks (r ∷ results) w w' shrinks fit = (
    Fits-Shrinks bytes r.candidates w w' shrinks fit.0,
    AllFit-Shrinks results w w' shrinks fit.1,
  )

  aggregate-Fits :
      (results : List DirScanResult) (w : W)
      → AllFit results w
      → Fits bytes (aggregate results).0.candidates w
  unfolding aggregate
  aggregate-Fits [] w fit = tt
  aggregate-Fits (r ∷ results) w fit =
      Fits-append bytes r.candidates (aggregate results).0.candidates w fit.0
        (aggregate-Fits results w fit.1)

module _ {W : Type 0} (fs : FileSystem W) (from_slice : Bytes → Option CacheMeta)
    (task_failure : FilePath → W → Option Bytes) {bytes : FilePath → W → ℕ}
    (lawful : IsLawful fs bytes) where
  shard_task-AllFit :
      (path : FilePath) (results : List DirScanResult) (w : W)
      → AllFit bytes results w
      → Extends
          (shard_task fs from_slice task_failure)
          join_failure
          (AllFit bytes)
          results
          (shard_task fs from_slice task_failure path w)
  unfolding shard_task
  shard_task-AllFit path results w fit = elim (Option-cases (task_failure path w)) [
    | inr (text, panics) ↦ rw (panics, shard_task) tt
    | inl ends ↦ elim (Result-cases (scan_hash_dir_for_eviction fs from_slice path w).0) [
      | inl (fault, failed) ↦ rw (ends, shard_task, failed) tt
      | inr (r, went) ↦
          let w1 = (scan_hash_dir_for_eviction fs from_slice path w).1 in
          let here = scan_hash_dir_for_eviction-Measures fs from_slice lawful path w in
          rw (ends, shard_task, went)
            (All-append (λ r. Fits bytes r.candidates w1) results (r ∷ [])
              (AllFit-Shrinks bytes results w w1 here.1 fit)
              (Ensures-at (λ r w'. Fits bytes r.candidates w') _ r here.0 went, tt))
    ]
  ]

  abbrev ScanFits : (Result EvictionScanError ScanResult × CacheStats) × W → Type 0
  ScanFits ((ok scan, stats), w) = Fits bytes scan.candidates w
  ScanFits ((err e, stats), w) = Unit

  clean_and_reconcile-ScanFits :
      (hash_dirs : ℕ) (t : Tally) (cleanups : List DeferredCleanup) (stats : CacheStats) (w : W)
      → Fits bytes t.candidates w
      → ScanFits (clean_and_reconcile fs from_slice task_failure hash_dirs (t, cleanups) stats w)
  unfolding clean_and_reconcile
  clean_and_reconcile-ScanFits hash_dirs t cleanups stats w fits =
      ground (arith, (process_deferred_cleanups-Keeps fs from_slice lawful cleanups t w fits).0)

  scan_shards-ScanFits :
      (schedule : List ℕ) (hash_dirs : List FilePath) (stats : CacheStats) (w : W)
      → ScanFits (scan_shards fs from_slice task_failure schedule hash_dirs stats w)
  unfolding scan_shards
  scan_shards-ScanFits schedule hash_dirs stats w =
      let task = shard_task fs from_slice task_failure in
      let limit = cache_hash_dir_scan_concurrency in
      let scan = bounded_parallel_scan task join_failure schedule hash_dirs limit w in
      let fit =
        bounded_parallel_scan-Inv task join_failure (AllFit bytes) shard_task-AllFit schedule
          hash_dirs limit w tt in
      elim (Result-cases scan.0) [
        | inl (fault, failed) ↦ rw (failed, scan_shards) tt
        | inr (results, went) ↦
            let here = Ensures-at (AllFit bytes) scan results fit went in
            rw (went, scan_shards)
              (clean_and_reconcile-ScanFits (length hash_dirs) (aggregate results).0
                (aggregate results).1 stats scan.1 (aggregate-Fits bytes results scan.1 here))
      ]

  collect_candidates-ScanFits :
      (schedule : List ℕ) (objects_dir : FilePath) (stats : CacheStats) (w : W)
      → ScanFits (collect_candidates fs from_slice task_failure schedule objects_dir stats w)
  unfolding collect_candidates no_scan
  collect_candidates-ScanFits schedule objects_dir stats w =
      let (walked, w1) = collect_hash_dirs_strict fs objects_dir w in
      elim (Result-cases walked) [
        | inl (fault, failed) ↦ rw (failed, collect_candidates) tt
        | inr (hash_dirs, went) ↦ elim (Bool-cases (is_empty hash_dirs)) [
          | inl nothing ↦ rw (went, collect_candidates, nothing) tt
          | inr some_dirs ↦
              rw (went, collect_candidates, some_dirs)
                (scan_shards-ScanFits schedule hash_dirs stats w1)
        ]
      ]

  pub evict_after_scan-covers :
      (schedule : List ℕ) (objects_dir : FilePath) (stats : CacheStats) (w : W) (top : ℕ)
      (scan : ScanResult)
      → (collect_candidates fs from_slice task_failure schedule objects_dir stats w).0.0 ≡ ok scan
      → scan.total_bytes < 2 ^ 64
      → let ((r, stats'), w1) =
          collect_candidates fs from_slice task_failure schedule objects_dir stats w in
        let (budget, w') = evict_over_budget fs from_slice top scan stats' w1 in
        scan.total_bytes + sum_left bytes scan.candidates w'
        ≤ budget.current_size + sum_sizes scan.candidates
  evict_after_scan-covers schedule objects_dir stats w top scan went small =
      let ((r, stats'), w1) =
        collect_candidates fs from_slice task_failure schedule objects_dir stats w in
      let fits = collect_candidates-ScanFits schedule objects_dir stats w in
      let sums =
        collect_candidates-Reconciles fs from_slice task_failure schedule objects_dir stats w in
      evict_over_budget-covers fs from_slice lawful top scan stats' w1 (ground (arith, went, fits))
        (ground (arith, went, sums)) small
