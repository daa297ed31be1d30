-- ===== src/Cache/Eviction/Tallied.antt =====
-- The totals of a shard's scan, and the sizes of its candidates (src/cache/eviction.rs).
use tiny_s3_proxy.Prelude.{
  List, Option, Result, [], arith, length, ℕ, ◌++◌, ◌+◌, ◌∷◌, ◌≡◌, length-append, Result-cases, err,
  inl, inr, ok, refl, Ensures, attempt-Ensures,
}
use tiny_s3_proxy.Text.{Bytes}
use tiny_s3_proxy.Cache.FileSystem.{FilePath, FileSystem, DirEntry}
use tiny_s3_proxy.Cache.Metadata.{CacheMeta}
use tiny_s3_proxy.Cache.Eviction.{DeferredCleanup, EvictionCandidate, EvictionScanError, IoError}
use tiny_s3_proxy.Cache.Eviction.Pass.{sum_sizes}
use tiny_s3_proxy.Cache.Eviction.Shard.{
  DirScanResult, defer, measure_entry, probe_orphan, push_candidate, scan_meta, scan_file,
  scan_entry, scan_entries, scan_hash_dir_for_eviction, no_entries,
}

pub sum_sizes-append :
    (cs ds : List EvictionCandidate) → sum_sizes (cs ++ ds) ≡ sum_sizes cs + sum_sizes ds
unfolding sum_sizes
sum_sizes-append [] ds = omega arith
sum_sizes-append (c ∷ cs) ds = omega (arith, sum_sizes-append cs ds)

-- The totals are those of the candidates.
abbrev pub IsTallied : DirScanResult → Type 0
IsTallied r = (sum_sizes r.candidates ≡ r.total_bytes) × (length r.candidates ≡ r.entry_count)

push_candidate-IsTallied :
    (r : DirScanResult) (c : EvictionCandidate) → IsTallied r → IsTallied (push_candidate r c)
unfolding push_candidate sum_sizes
push_candidate-IsTallied r c h =
    omega (arith, sum_sizes-append r.candidates (c ∷ []), length-append r.candidates (c ∷ []))

module _ {W : Type 0} (fs : FileSystem W) (from_slice : Bytes → Option CacheMeta) where
  abbrev Tallies : Result EvictionScanError DirScanResult × W → Type 0
  Tallies = Ensures (λ r w. IsTallied r)

  probe_orphan-IsTallied :
      (dir : FilePath) (hash : Bytes) (orphan : DeferredCleanup) (r : DirScanResult) (w : W)
      → IsTallied r
      → Tallies (probe_orphan fs from_slice dir hash orphan r w)
  unfolding probe_orphan defer
  probe_orphan-IsTallied dir hash orphan r w h = ground arith

  measure_entry-IsTallied :
      (dir file_path : FilePath) (hash : Bytes) (n : ℕ) (meta : CacheMeta) (r : DirScanResult)
      (w : W)
      → IsTallied r
      → Tallies (measure_entry fs from_slice dir file_path hash n meta r w)
  unfolding measure_entry defer
  measure_entry-IsTallied dir file_path hash n meta r w h = grind (arith, push_candidate-IsTallied)

  scan_meta-IsTallied :
      (dir file_path : FilePath) (hash : Bytes) (r : DirScanResult) (w : W)
      → IsTallied r
      → Tallies (scan_meta fs from_slice dir file_path hash r w)
  unfolding scan_meta defer
  scan_meta-IsTallied dir file_path hash r w h = grind (arith, measure_entry-IsTallied)

  scan_file-IsTallied :
      (dir file_path : FilePath) (name : Bytes) (r : DirScanResult) (w : W)
      → IsTallied r
      → Tallies (scan_file fs from_slice dir file_path name r w)
  unfolding scan_file
  scan_file-IsTallied dir file_path name r w h =
      grind (arith, scan_meta-IsTallied, probe_orphan-IsTallied)

  scan_entry-IsTallied :
      (dir : FilePath) (entry : Result IoError DirEntry) (r : DirScanResult) (w : W)
      → IsTallied r
      → Tallies (scan_entry fs from_slice dir entry r w)
  unfolding scan_entry
  scan_entry-IsTallied dir (err e) r w h = tt
  scan_entry-IsTallied dir (ok entry) r w h = grind (arith, scan_file-IsTallied)

  scan_entries-IsTallied :
      (dir : FilePath) (entries : List (Result IoError DirEntry)) (r : DirScanResult) (w : W)
      → IsTallied r
      → Tallies (scan_entries fs from_slice dir entries r w)
  unfolding scan_entries
  scan_entries-IsTallied dir [] r w h = h
  scan_entries-IsTallied dir (entry ∷ entries) r w h =
      attempt-Ensures (λ r' w'. IsTallied r') (λ r' w'. IsTallied r')
        (scan_entry fs from_slice dir entry r w) _ (scan_entry-IsTallied dir entry r w h)
        (λ r' w' h'. scan_entries-IsTallied dir entries r' w' h')

  -- Whatever the file system answers, a scan's totals are those of its candidates.
  pub scan_hash_dir_for_eviction-IsTallied :
      (dir : FilePath) (w : W) → Tallies (scan_hash_dir_for_eviction fs from_slice dir w)
  unfolding scan_hash_dir_for_eviction no_entries sum_sizes
  scan_hash_dir_for_eviction-IsTallied dir w =
      let (listed, w1) = fs.read_dir dir w in
      elim (Result-cases listed) [
        | inr (entries, e) ↦
            rw (e, scan_hash_dir_for_eviction)
              (scan_entries-IsTallied dir entries no_entries w1 (refl, refl))
        | inl (e, failed) ↦ ground arith
      ]
