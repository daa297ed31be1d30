-- ===== src/Cache/Eviction/Cleaned.antt =====
-- What the deferred cleanups do to the totals (src/cache/eviction.rs).
use tiny_s3_proxy.Prelude.{
  List, Option, Result, String, [], arith, err, length, ok, ℕ, ◌+◌, ◌∷◌, ◌≡◌, ◌≤◌, length-append,
  ◌<◌,
}
use tiny_s3_proxy.Text.{Bytes}
use tiny_s3_proxy.Cache.FileSystem.{FilePath, FileSystem}
use tiny_s3_proxy.Cache.Metadata.{CacheMeta}
use tiny_s3_proxy.Cache.Eviction.{
  DeferredCleanup, EntryPaths, EvictionCandidate, EvictionScanError, corrupt_entry,
  deferred_cleanup, eviction_io_error, malformed_hash, missing_body, orphan_body, orphan_poison,
}
use tiny_s3_proxy.Cache.Eviction.Pass.{sum_sizes}
use tiny_s3_proxy.Cache.Eviction.Tallied.{sum_sizes-append}
use tiny_s3_proxy.Cache.Eviction.Cleanup.{
  RecoverOutcome, Tally, abort, abort_at, account_unreclaimed, clean_entry, clean_orphan_body,
  clean_orphan_poison, clean_up, count_orphan_body, finish, process_deferred_cleanups, recover,
  recovered, record_deferred_cleanup_failure, remove_and_account, remove_entry,
  remove_meta_and_poison, remove_one, settle_outcome, try_recover_entry,
}

-- No candidate is missing from the totals.
abbrev pub IsAccounted : Tally → Type 0
IsAccounted t =
    (sum_sizes t.candidates ≤ t.scan_total_bytes) × (length t.candidates ≡ t.scan_entry_count)

-- What a run of at most `n` cleanups makes of a tally.
abbrev pub Cleans :
    {W : Type 0} → Tally → (n : ℕ) → (Result EvictionScanError (Unit {0}) × Tally) × W → Type 0
Cleans t n ((ok _, t'), w) =
    IsAccounted t'
    × (t.deferred_cleanup_failed ≤ t'.deferred_cleanup_failed)
    × (t'.deferred_cleanup_failed ≤ t.deferred_cleanup_failed + n)
Cleans t n ((err e, t'), w) =
    (e.reason ≡ deferred_cleanup)
    × (t.deferred_cleanup_failed < t'.deferred_cleanup_failed)
    × (t'.deferred_cleanup_failed ≤ t.deferred_cleanup_failed + n)

recover-IsAccounted :
    (t : Tally) (c : EvictionCandidate) (size : ℕ)
    → c.size ≡ size
    → IsAccounted t
    → IsAccounted (recover t size c)
unfolding recover sum_sizes
recover-IsAccounted t c size same h =
    omega (arith, sum_sizes-append t.candidates (c ∷ []), length-append t.candidates (c ∷ []))

module _ {W : Type 0} (fs : FileSystem W) (from_slice : Bytes → Option CacheMeta) where
  remove_one-Cleans :
      (path : FilePath) (t : Tally) (w : W)
      → IsAccounted t
      → Cleans t 1 (remove_one fs from_slice path t w)
  unfolding remove_one remove_and_account account_unreclaimed finish abort
      record_deferred_cleanup_failure
  remove_one-Cleans path t w h = ground arith

  remove_meta_and_poison-Cleans :
      (paths : EntryPaths) (t : Tally) (w : W)
      → IsAccounted t
      → Cleans t 1 (remove_meta_and_poison fs from_slice paths t w)
  unfolding remove_meta_and_poison remove_and_account account_unreclaimed finish abort
      record_deferred_cleanup_failure
  remove_meta_and_poison-Cleans paths t w h = ground arith

  remove_entry-Cleans :
      (paths : EntryPaths) (t : Tally) (w : W)
      → IsAccounted t
      → Cleans t 1 (remove_entry fs from_slice paths t w)
  unfolding remove_entry account_unreclaimed finish abort record_deferred_cleanup_failure
  remove_entry-Cleans paths t w h = ground arith

  clean_orphan_body-Cleans :
      (path : FilePath) (hash : Bytes) (t : Tally) (w : W)
      → IsAccounted t
      → Cleans t 1 (clean_orphan_body fs from_slice path hash t w)
  unfolding clean_orphan_body count_orphan_body record_deferred_cleanup_failure abort_at
      eviction_io_error
  clean_orphan_body-Cleans path hash t w h = grind (arith, remove_one-Cleans)

  clean_orphan_poison-Cleans :
      (path : FilePath) (hash : Bytes) (t : Tally) (w : W)
      → IsAccounted t
      → Cleans t 1 (clean_orphan_poison fs from_slice path hash t w)
  unfolding clean_orphan_poison record_deferred_cleanup_failure
  clean_orphan_poison-Cleans path hash t w h = grind (arith, remove_one-Cleans)

  -- A recovered candidate has the size that is counted.
  abbrev SizeFits : RecoverOutcome × W → Type 0
  SizeFits (recovered size candidate, w) = candidate.size ≡ size
  SizeFits _ = Unit

  try_recover_entry-SizeFits :
      (paths : EntryPaths) (w : W) → SizeFits (try_recover_entry fs from_slice paths w)
  unfolding try_recover_entry
  try_recover_entry-SizeFits paths w = ground arith

  clean_entry-Cleans :
      (body_failure meta_failure : String) (paths : EntryPaths) (t : Tally) (w : W)
      → IsAccounted t
      → Cleans t 1 (clean_entry fs from_slice body_failure meta_failure paths t w)
  unfolding clean_entry settle_outcome abort_at eviction_io_error record_deferred_cleanup_failure
  clean_entry-Cleans body_failure meta_failure paths t w h = grind (
    arith,
    try_recover_entry-SizeFits paths w,
    recover-IsAccounted,
    remove_meta_and_poison-Cleans,
    remove_entry-Cleans,
  )

  clean_up-Cleans :
      (cleanup : DeferredCleanup) (t : Tally) (w : W)
      → IsAccounted t
      → Cleans t 1 (clean_up fs from_slice cleanup t w)
  unfolding clean_up
  clean_up-Cleans (orphan_body path hash) t w h = clean_orphan_body-Cleans path hash t w h
  clean_up-Cleans (orphan_poison path hash) t w h = clean_orphan_poison-Cleans path hash t w h
  clean_up-Cleans (corrupt_entry paths) t w h =
      clean_entry-Cleans "stat body during locked eviction cleanup"
        "read metadata during locked eviction cleanup" paths t w h
  clean_up-Cleans (malformed_hash paths) t w h = remove_entry-Cleans paths t w h
  clean_up-Cleans (missing_body paths) t w h =
      clean_entry-Cleans "stat body during locked missing-body cleanup"
        "read metadata during locked missing-body cleanup" paths t w h

  -- Whatever the file system answers.
  pub process_deferred_cleanups-Cleans :
      (cleanups : List DeferredCleanup) (t : Tally) (w : W)
      → IsAccounted t
      → Cleans t (length cleanups) (process_deferred_cleanups fs from_slice cleanups t w)
  unfolding process_deferred_cleanups
  process_deferred_cleanups-Cleans [] t w h = (h, omega arith, omega arith)
  process_deferred_cleanups-Cleans (cleanup ∷ cleanups) t w h =
      let ((r, t1), w1) = clean_up fs from_slice cleanup t w in
      let first = clean_up-Cleans cleanup t w h in
      ground (arith, first, process_deferred_cleanups-Cleans cleanups t1 w1)
