-- ===== src/Cache/Eviction/Cleanup.antt =====
-- The deferred cleanups of an eviction pass (src/cache/eviction.rs). The tally holds the variables
-- that `process_deferred_cleanups` changes in place: it comes back after an error too.
use tiny_s3_proxy.Prelude.{
  Bool, List, Option, Result, String, [], err, false, if◌then◌else◌, length, ltb, none, ok, some,
  true, ℕ, ◌++◌, ◌+◌, ◌||◌, ◌∷◌,
}
use tiny_s3_proxy.Text.{Bytes, codes}
use tiny_s3_proxy.Cache.FileSystem.{FilePath, FileSystem, IoError, is_not_found, join, parent}
use tiny_s3_proxy.Cache.Metadata.{CacheMeta}
use tiny_s3_proxy.Cache.Eviction.{
  DeferredCleanup, EntryPaths, EvictionCandidate, EvictionScanError, corrupt_entry,
  deferred_cleanup, eviction_io_error, malformed_hash, missing_body, orphan_body, orphan_poison,
  remove_entry_files, remove_file_or_reclaim_size,
}
use tiny_s3_proxy.Cache.Eviction.Shard.{meta_name}

pub data RecoverOutcome : Type 0 where
  recovered : (size : ℕ) (candidate : EvictionCandidate) → RecoverOutcome
  body_missing : RecoverOutcome
  body_stat_error : IoError → RecoverOutcome
  meta_read_error : IoError → RecoverOutcome
  meta_parse_error : RecoverOutcome

pub record Tally : Type 0 where
  pub candidates : List EvictionCandidate
  pub scan_total_bytes : ℕ
  pub scan_entry_count : ℕ
  pub deferred_cleanup_failed : ℕ

unfoldable pub record_deferred_cleanup_failure : Tally → Tally
record_deferred_cleanup_failure t = record t {
  deferred_cleanup_failed = t.deferred_cleanup_failed + 1;
}

-- The bytes that are left are counted, and make the cleanup a partial failure.
unfoldable pub account_unreclaimed : Tally × Bool → ℕ → Tally × Bool
account_unreclaimed (t, partial) unreclaimed =
    (record t { scan_total_bytes = t.scan_total_bytes + unreclaimed }, ltb 0 unreclaimed || partial)

unfoldable pub recover : Tally → (size : ℕ) → EvictionCandidate → Tally
recover t size candidate = record t {
  candidates = t.candidates ++ candidate ∷ [];
  scan_total_bytes = t.scan_total_bytes + size;
  scan_entry_count = t.scan_entry_count + 1;
}

abbrev Outcome : Type 0 → Type 0
Outcome W = (Result EvictionScanError (Unit {0}) × Tally) × W

-- At most one failure for each cleanup that goes through.
unfoldable pub finish : {W : Type 0} → Tally × Bool → W → Outcome W
unfolding record_deferred_cleanup_failure
finish (t, partial) w = ((ok tt, if partial then record_deferred_cleanup_failure t else t), w)

-- Also `deferred_cleanup_err`: the failure is counted, and the pass ends.
unfoldable pub abort : {W : Type 0} → IoError → Tally → W → Outcome W
unfolding record_deferred_cleanup_failure
abort source t w =
    let e : EvictionScanError = record { reason = deferred_cleanup; source = source } in
    ((err e, record_deferred_cleanup_failure t), w)

unfoldable pub abort_at : {W : Type 0} → String → FilePath → IoError → Tally → W → Outcome W
unfolding record_deferred_cleanup_failure eviction_io_error
abort_at operation path e t w = (
  (
    err (eviction_io_error deferred_cleanup (codes operation) path e),
    record_deferred_cleanup_failure t,
  ),
  w,
)

module _ {W : Type 0} (fs : FileSystem W) (from_slice : Bytes → Option CacheMeta) where
  unfoldable pub try_recover_entry : EntryPaths → W → RecoverOutcome × W
  try_recover_entry paths w =
      let (body, w1) = fs.metadata paths.body_path w in
      let (meta, w2) = fs.read paths.meta_path w1 in
      elim body [
        | err e ↦ (if is_not_found e then body_missing else body_stat_error e, w1)
        | ok body_sz ↦ elim meta [
          | err e ↦ (meta_read_error e, w2)
          | ok meta_bytes ↦ elim (from_slice meta_bytes) [
            | none ↦ (meta_parse_error, w2)
            | some meta ↦
                let size = body_sz + length meta_bytes in
                let candidate : EvictionCandidate = record {
                  body_path = paths.body_path;
                  meta_path = paths.meta_path;
                  hash = paths.hash;
                  fill_id = meta.fill_id;
                  last_accessed_at = meta.last_accessed_at;
                  size = size;
                } in
                (recovered size candidate, w2)
          ]
        ]
      ]

  -- One file is removed, and what is left of it accounted for.
  unfoldable pub remove_and_account :
      FilePath → Tally × Bool → W → (Tally × Bool → W → Outcome W) → Outcome W
  unfolding abort account_unreclaimed
  remove_and_account path (t, partial) w next =
      let (r, w1) = remove_file_or_reclaim_size fs path w in
      elim r [ err e ↦ abort e t w1 | ok left ↦ next (account_unreclaimed (t, partial) left) w1 ]

  unfoldable pub remove_one : FilePath → Tally → W → Outcome W
  unfolding remove_and_account finish
  remove_one path t w = remove_and_account path (t, false) w finish

  -- Body gone: the metadata and the poison marker go too.
  unfoldable pub remove_meta_and_poison : EntryPaths → Tally → W → Outcome W
  unfolding remove_and_account finish
  remove_meta_and_poison paths t w =
      remove_and_account paths.meta_path (t, false) w
        λ counted w1. remove_and_account paths.poison_path counted w1 finish

  unfoldable pub remove_entry : EntryPaths → Tally → W → Outcome W
  unfolding abort account_unreclaimed finish
  remove_entry paths t w =
      let (r, w1) = remove_entry_files fs paths w in
      elim r [ err e ↦ abort e t w1 | ok left ↦ finish (account_unreclaimed (t, false) left) w1 ]

  -- The body's orphan status could not be told: its bytes are counted, and it stays.
  unfoldable pub count_orphan_body : FilePath → Tally → W → Outcome W
  unfolding record_deferred_cleanup_failure abort_at
  count_orphan_body body_path t w =
      let (r, w1) = fs.metadata body_path w in
      elim r [
        | ok len ↦
            let counted : Tally = record t { scan_total_bytes = t.scan_total_bytes + len } in
            ((ok tt, record_deferred_cleanup_failure counted), w1)
        | err e ↦
            if is_not_found e
            then ((ok tt, t), w1)
            else abort_at "stat orphan body during locked eviction cleanup" body_path e t w1
      ]

  unfoldable pub clean_orphan_body : FilePath → (hash : Bytes) → Tally → W → Outcome W
  unfolding count_orphan_body remove_one
  clean_orphan_body body_path hash t w =
      let (r, w1) = fs.try_exists (join (parent body_path) (meta_name hash)) w in
      elim r [
        | ok false ↦ remove_one body_path t w1
        | ok true ↦ ((ok tt, t), w1)
        | err e ↦ count_orphan_body body_path t w1
      ]

  unfoldable pub clean_orphan_poison : FilePath → (hash : Bytes) → Tally → W → Outcome W
  unfolding record_deferred_cleanup_failure remove_one
  clean_orphan_poison poison_path hash t w =
      let (r, w1) = fs.try_exists (join (parent poison_path) (meta_name hash)) w in
      elim r [
        | ok false ↦ remove_one poison_path t w1
        | ok true ↦ ((ok tt, t), w1)
        | err e ↦ ((ok tt, record_deferred_cleanup_failure t), w1)
      ]

  -- `CorruptEntry` and `MissingBody` differ in the texts of their errors.
  unfoldable pub settle_outcome :
      (body_failure meta_failure : String) → EntryPaths → Tally → RecoverOutcome → W → Outcome W
  unfolding remove_meta_and_poison remove_entry recover abort_at
  settle_outcome body_failure meta_failure paths t (recovered size candidate) w =
      ((ok tt, recover t size candidate), w)
  settle_outcome body_failure meta_failure paths t body_missing w = remove_meta_and_poison paths t w
  settle_outcome body_failure meta_failure paths t (body_stat_error e) w =
      abort_at body_failure paths.body_path e t w
  settle_outcome body_failure meta_failure paths t (meta_read_error e) w =
      abort_at meta_failure paths.meta_path e t w
  settle_outcome body_failure meta_failure paths t meta_parse_error w = remove_entry paths t w

  unfoldable pub clean_entry :
      (body_failure meta_failure : String) → EntryPaths → Tally → W → Outcome W
  unfolding try_recover_entry settle_outcome
  clean_entry body_failure meta_failure paths t w =
      let (outcome, w1) = try_recover_entry paths w in
      settle_outcome body_failure meta_failure paths t outcome w1

  unfoldable pub clean_up : DeferredCleanup → Tally → W → Outcome W
  unfolding clean_orphan_body clean_orphan_poison clean_entry remove_entry
  clean_up (orphan_body body_path hash) t w = clean_orphan_body body_path hash t w
  clean_up (orphan_poison poison_path hash) t w = clean_orphan_poison poison_path hash t w
  clean_up (corrupt_entry paths) t w =
      clean_entry "stat body during locked eviction cleanup"
        "read metadata during locked eviction cleanup" paths t w
  clean_up (malformed_hash paths) t w = remove_entry paths t w
  clean_up (missing_body paths) t w =
      clean_entry "stat body during locked missing-body cleanup"
        "read metadata during locked missing-body cleanup" paths t w

  unfoldable pub process_deferred_cleanups : List DeferredCleanup → Tally → W → Outcome W
  unfolding clean_up
  process_deferred_cleanups [] t w = ((ok tt, t), w)
  process_deferred_cleanups (cleanup ∷ cleanups) t w =
      let ((r, t1), w1) = clean_up cleanup t w in
      elim r [ ok _ ↦ process_deferred_cleanups cleanups t1 w1 | err e ↦ ((err e, t1), w1) ]
