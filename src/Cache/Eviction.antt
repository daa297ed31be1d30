-- ===== src/Cache/Eviction.antt =====
-- Eviction from the disk cache (src/cache/eviction.rs): the data, and the functions that remove
-- files. The children model the scan of a shard, the deferred cleanups, and the pass over the whole
-- cache. Log lines and metrics are left out, as are the per-key locks: a call may find the files
-- changed by others at any time, which the world of the file system stands for.
mod Remove
pub mod Budget
pub mod Covered
pub mod Lru
pub mod Kept
pub mod Tallied
pub mod Measured
pub mod Cleaned
pub mod Reasons
pub mod Reconciled
pub mod Removed
pub mod Recovered
pub mod Composed
mod Tests
pub mod Shard
pub mod Cleanup
pub mod Candidate
pub mod Collect
pub mod Pass
use tiny_s3_proxy.Prelude.{
  Bool, Option, Result, err, if◌then◌else◌, none, ok, some, ℕ, ◌+◌, attempt,
}
use tiny_s3_proxy.Text.{Bytes, codes}
use tiny_s3_proxy.Cache.FileSystem.{
  FilePath, FileSystem, IoError, contextual_io_error, is_not_found,
}
use tiny_s3_proxy.Cache.Metadata.{DateTime, FillId}

pub data ScanFailureReason : Type 0 where
  objects_dir_probe hash_dir_walk hash_dir_scan join deferred_cleanup other : ScanFailureReason

unfoldable pub as_label : ScanFailureReason → Bytes
as_label objects_dir_probe = codes "objects_dir_probe"
as_label hash_dir_walk = codes "hash_dir_walk"
as_label hash_dir_scan = codes "hash_dir_scan"
as_label join = codes "join"
as_label deferred_cleanup = codes "deferred_cleanup"
as_label other = codes "other"

-- Its source is always an `io::Error`.
pub record EvictionScanError : Type 0 where
  pub reason : ScanFailureReason
  pub source : IoError

unfoldable pub eviction_io_error :
    ScanFailureReason → (operation : Bytes) → FilePath → IoError → EvictionScanError
unfolding contextual_io_error
eviction_io_error reason operation path error = record {
  reason = reason;
  source = contextual_io_error operation path error;
}

pub record EvictionCandidate : Type 0 where
  pub body_path : FilePath
  pub meta_path : FilePath
  pub hash : Bytes
  pub fill_id : FillId
  pub last_accessed_at : DateTime
  pub size : ℕ

pub record EntryPaths : Type 0 where
  pub meta_path : FilePath
  pub body_path : FilePath
  pub poison_path : FilePath
  pub hash : Bytes

pub data DeferredCleanup : Type 0 where
  orphan_body : (body_path : FilePath) (hash : Bytes) → DeferredCleanup
  orphan_poison : (poison_path : FilePath) (hash : Bytes) → DeferredCleanup
  corrupt_entry : EntryPaths → DeferredCleanup
  malformed_hash : EntryPaths → DeferredCleanup
  missing_body : EntryPaths → DeferredCleanup

-- A size that is 0 when the file is gone, and unknown when it cannot be told.
abbrev pub known_size : Result IoError ℕ → Option ℕ
known_size (ok n) = some n
known_size (err e) = if is_not_found e then some 0 else none

abbrev or_pre_known : FilePath → Option ℕ → IoError → Result IoError ℕ
or_pre_known path (some pre) e = ok pre
or_pre_known path none e =
    err (contextual_io_error (codes "stat after failed remove during eviction cleanup") path e)

abbrev measured : FilePath → Option ℕ → Result IoError ℕ → Result IoError ℕ
measured path pre_known (ok n) = ok n
measured path pre_known (err e) = if is_not_found e then ok 0 else or_pre_known path pre_known e

module _ {W : Type 0} (fs : FileSystem W) where
  unfoldable pub pre_stat_size : FilePath → W → Option ℕ × W
  pre_stat_size path w = let (r, w1) = fs.metadata path w in (known_size r, w1)

  unfoldable pub measure_unreclaimed_after_failed_remove :
      FilePath → (pre_known : Option ℕ) → W → Result IoError ℕ × W
  measure_unreclaimed_after_failed_remove path pre_known w =
      let (r, w1) = fs.metadata path w in (measured path pre_known r, w1)

  unfoldable pub remove_file_or_reclaim_size : FilePath → W → Result IoError ℕ × W
  unfolding pre_stat_size measure_unreclaimed_after_failed_remove
  remove_file_or_reclaim_size path w =
      let (pre_size, w1) = pre_stat_size path w in
      let (r, w2) = fs.remove_file path w1 in
      elim r [
        | ok _ ↦ (ok 0, w2)
        | err e ↦
            if is_not_found e
            then (ok 0, w2)
            else measure_unreclaimed_after_failed_remove path pre_size w2
      ]

  unfoldable pub remove_entry_files : EntryPaths → W → Result IoError ℕ × W
  unfolding remove_file_or_reclaim_size
  remove_entry_files paths w = attempt (remove_file_or_reclaim_size paths.meta_path w) λ meta w1.
      attempt (remove_file_or_reclaim_size paths.body_path w1) λ body w2.
        attempt (remove_file_or_reclaim_size paths.poison_path w2)
          λ poison w3. (ok (meta + body + poison), w3)

  -- What a remove has left of a file, in the eviction of a candidate.
  unfoldable pub remaining_bytes_after_failed_remove : Bool → FilePath → W → Option ℕ × W
  remaining_bytes_after_failed_remove gone path w =
      let (r, w1) = fs.metadata path w in if gone then (some 0, w) else (known_size r, w1)
