-- ===== src/Cache/Eviction/Pass.antt =====
-- One eviction pass (src/cache/eviction.rs): the scan of the whole cache, then the eviction of the
-- least recently used entries until the cache is within its budget.
use tiny_s3_proxy.Prelude.{
  List, Option, Result, [], err, false, if◌then◌else◌, leb, length, ltb, none, ok, some, true, ℕ,
  ◌+◌, ◌-◌, ◌∷◌, ◌%◌, ◌^◌,
}
use tiny_s3_proxy.Text.{Bytes, codes}
use tiny_s3_proxy.Cache.FileSystem.{FilePath, FileSystem, join}
use tiny_s3_proxy.Cache.Metadata.{CacheMeta}
use tiny_s3_proxy.Cache.Stats.{CacheStats}
use tiny_s3_proxy.Cache.Eviction.{EvictionCandidate, EvictionScanError}
use tiny_s3_proxy.Cache.Eviction.Collect.{ScanResult, collect_candidates, no_scan, reconcile}
use tiny_s3_proxy.Cache.Eviction.Candidate.{Budget, try_evict_candidate}

-- `sort_by_key(|c| c.last_accessed_at)`, which is stable
unfoldable pub insert_by_access :
    EvictionCandidate → List EvictionCandidate → List EvictionCandidate
insert_by_access c [] = c ∷ []
insert_by_access c (d ∷ ds) =
    let rest = insert_by_access c ds in
    if leb c.last_accessed_at d.last_accessed_at then c ∷ d ∷ ds else d ∷ rest

unfoldable pub sort_by_access : List EvictionCandidate → List EvictionCandidate
unfolding insert_by_access
sort_by_access [] = []
sort_by_access (c ∷ cs) = insert_by_access c (sort_by_access cs)

unfoldable pub sum_sizes : List EvictionCandidate → ℕ
sum_sizes [] = 0
sum_sizes (c ∷ cs) = c.size + sum_sizes cs

-- What the pass reports, and the counters that it leaves.
pub record EvictionPassSummary : Type 0 where
  pub hash_dirs : ℕ
  pub candidate_count : ℕ
  pub candidate_bytes : ℕ
  pub deferred_cleanup_count : ℕ
  pub deferred_cleanup_failed : ℕ
  pub scan_total_bytes : ℕ
  pub max_bytes : ℕ
  pub over_budget_bytes_before : ℕ
  pub evicted : ℕ
  pub final_size_bytes : ℕ
  pub over_budget_bytes_after : ℕ

unfoldable pub summarize : (max_bytes : ℕ) → ScanResult → Budget → EvictionPassSummary
unfolding sum_sizes
summarize max_bytes scan budget = record {
  hash_dirs = scan.hash_dirs;
  candidate_count = length scan.candidates;
  candidate_bytes = sum_sizes scan.candidates;
  deferred_cleanup_count = scan.deferred_cleanup_count;
  deferred_cleanup_failed = scan.deferred_cleanup_failed;
  scan_total_bytes = scan.total_bytes;
  max_bytes = max_bytes;
  over_budget_bytes_before = scan.total_bytes - max_bytes;
  evicted = budget.evicted;
  final_size_bytes = budget.current_size;
  over_budget_bytes_after = budget.current_size - max_bytes;
}

-- The result of a pass: a summary, nothing when the probe of the objects directory failed, or the
-- error of the scan.
abbrev pub PassResult : Type 0
PassResult = Result EvictionScanError (Option EvictionPassSummary)

module _ {W : Type 0} (fs : FileSystem W) (from_slice : Bytes → Option CacheMeta) where
  unfoldable pub evict_loop : (max_bytes : ℕ) → List EvictionCandidate → Budget → W → Budget × W
  unfolding try_evict_candidate
  evict_loop max_bytes [] budget w = (budget, w)
  evict_loop max_bytes (candidate ∷ candidates) budget w =
      elim (leb budget.current_size max_bytes) [
        | true ↦ (budget, w)
        | false ↦
            let (budget', w1) = try_evict_candidate fs from_slice candidate budget w in
            evict_loop max_bytes candidates budget' w1
      ]

  -- `eviction_count.fetch_add(evicted)`
  abbrev add_evictions : Budget → Budget
  add_evictions budget =
      let stats : CacheStats = record budget.stats {
        eviction_count = (budget.stats.eviction_count + budget.evicted) % 2 ^ 64;
      } in
      record budget { stats = stats }

  -- From the end of the scan to the summary.
  unfoldable pub evict_over_budget : (max_bytes : ℕ) → ScanResult → CacheStats → W → Budget × W
  unfolding evict_loop sort_by_access
  evict_over_budget max_bytes scan stats w =
      let start : Budget = record { current_size = scan.total_bytes; evicted = 0; stats = stats } in
      let (budget, w1) = evict_loop max_bytes (sort_by_access scan.candidates) start w in
      if ltb max_bytes scan.total_bytes then (add_evictions budget, w1) else (start, w)

  module _ (task_failure : FilePath → W → Option Bytes) where
    unfoldable pub run_eviction_pass_inner :
        (schedule : List ℕ)
        → (cache_dir : FilePath) → (max_bytes : ℕ) → CacheStats
        → W
        → (PassResult × CacheStats) × W
    unfolding evict_over_budget collect_candidates summarize reconcile no_scan
    run_eviction_pass_inner schedule cache_dir max_bytes stats w =
        let objects_dir = join cache_dir (codes "objects") in
        let (exists, w1) = fs.try_exists objects_dir w in
        let ((scanned, stats'), w2) =
          collect_candidates fs from_slice task_failure schedule objects_dir stats w1 in
        let empty = evict_over_budget max_bytes no_scan (reconcile 0 0 stats) w1 in
        elim exists [
          | err e ↦ ((ok none, stats), w1)
          | ok false ↦ ((ok (some (summarize max_bytes no_scan empty.0)), empty.0.stats), empty.1)
          | ok true ↦ elim scanned [
            | err e ↦ ((err e, stats'), w2)
            | ok scan ↦
                let (budget, w3) = evict_over_budget max_bytes scan stats' w2 in
                ((ok (some (summarize max_bytes scan budget)), budget.stats), w3)
          ]
        ]
