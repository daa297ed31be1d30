-- ===== src/Cache/Eviction/Reasons.antt =====
-- The reasons of failed shard scans (src/cache/eviction.rs).
use tiny_s3_proxy.Prelude.{
  List, Option, Result, [], arith, err, ok, ℕ, ◌∷◌, ◌≡◌, refl, Fails, attempt-Fails,
}
use tiny_s3_proxy.Text.{Bytes}
use tiny_s3_proxy.Cache.FileSystem.{DirEntry, FilePath, FileSystem, IoError}
use tiny_s3_proxy.Cache.Metadata.{CacheMeta}
use tiny_s3_proxy.Cache.Eviction.{
  DeferredCleanup, EvictionScanError, eviction_io_error, hash_dir_scan,
}
use tiny_s3_proxy.Cache.Eviction.Shard.{
  DirScanResult, measure_entry, probe_orphan, scan_entries, scan_entry, scan_failure, scan_file,
  scan_hash_dir_for_eviction, scan_meta,
}

abbrev pub IsHashDirScan : EvictionScanError → Type 0
IsHashDirScan e = e.reason ≡ hash_dir_scan

module _ {W : Type 0} (fs : FileSystem W) (from_slice : Bytes → Option CacheMeta) where
  probe_orphan-Fails :
      (dir : FilePath) (hash : Bytes) (orphan : DeferredCleanup) (r : DirScanResult) (w : W)
      → Fails IsHashDirScan (probe_orphan fs from_slice dir hash orphan r w)
  unfolding probe_orphan scan_failure eviction_io_error
  probe_orphan-Fails dir hash orphan r w = ground arith

  measure_entry-Fails :
      (dir file_path : FilePath) (hash : Bytes) (n : ℕ) (meta : CacheMeta) (r : DirScanResult)
      (w : W)
      → Fails IsHashDirScan (measure_entry fs from_slice dir file_path hash n meta r w)
  unfolding measure_entry scan_failure eviction_io_error
  measure_entry-Fails dir file_path hash n meta r w = ground arith

  scan_meta-Fails :
      (dir file_path : FilePath) (hash : Bytes) (r : DirScanResult) (w : W)
      → Fails IsHashDirScan (scan_meta fs from_slice dir file_path hash r w)
  unfolding scan_meta scan_failure eviction_io_error
  scan_meta-Fails dir file_path hash r w = grind (arith, measure_entry-Fails)

  scan_file-Fails :
      (dir file_path : FilePath) (name : Bytes) (r : DirScanResult) (w : W)
      → Fails IsHashDirScan (scan_file fs from_slice dir file_path name r w)
  unfolding scan_file
  scan_file-Fails dir file_path name r w = grind (arith, scan_meta-Fails, probe_orphan-Fails)

  scan_entry-Fails :
      (dir : FilePath) (entry : Result IoError DirEntry) (r : DirScanResult) (w : W)
      → Fails IsHashDirScan (scan_entry fs from_slice dir entry r w)
  unfolding scan_entry scan_failure eviction_io_error
  scan_entry-Fails dir (err e) r w = refl
  scan_entry-Fails dir (ok entry) r w = grind (arith, scan_file-Fails)

  scan_entries-Fails :
      (dir : FilePath) (entries : List (Result IoError DirEntry)) (r : DirScanResult) (w : W)
      → Fails IsHashDirScan (scan_entries fs from_slice dir entries r w)
  unfolding scan_entries
  scan_entries-Fails dir [] r w = tt
  scan_entries-Fails dir (entry ∷ entries) r w =
      attempt-Fails IsHashDirScan (scan_entry fs from_slice dir entry r w) _
        (scan_entry-Fails dir entry r w) (λ r' w'. scan_entries-Fails dir entries r' w')

  pub scan_hash_dir_for_eviction-Fails :
      (dir : FilePath) (w : W)
      → Fails IsHashDirScan (scan_hash_dir_for_eviction fs from_slice dir w)
  unfolding scan_hash_dir_for_eviction scan_failure eviction_io_error
  scan_hash_dir_for_eviction-Fails dir w = grind (arith, scan_entries-Fails)
