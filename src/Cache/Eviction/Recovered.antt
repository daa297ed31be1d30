-- ===== src/Cache/Eviction/Recovered.antt =====
-- Cleanups that recover entries add candidates within their sizes (src/cache/eviction.rs).
use tiny_s3_proxy.Cache.Eviction.Measured.{Fits-append}
use tiny_s3_proxy.Prelude.{Option, arith, ℕ, Result-cases, inl, inr, String, ◌≤◌, List, [], ◌∷◌}
use tiny_s3_proxy.Text.{Bytes}
use tiny_s3_proxy.Cache.FileSystem.{FilePath, FileSystem}
use tiny_s3_proxy.Cache.FileSystem.Lawful.{IsLawful}
use tiny_s3_proxy.Cache.Metadata.{CacheMeta}
use tiny_s3_proxy.Cache.Eviction.{
  EntryPaths, DeferredCleanup, orphan_body, orphan_poison, corrupt_entry, malformed_hash,
  missing_body,
}
use tiny_s3_proxy.Cache.Eviction.Budget.{Fits, Shrinks, left}
use tiny_s3_proxy.Cache.Eviction.Covered.{Fits-Shrinks}
use tiny_s3_proxy.Cache.Eviction.Cleanup.{
  Tally, abort_at, record_deferred_cleanup_failure, RecoverOutcome, try_recover_entry, clean_entry,
  recovered, body_missing, body_stat_error, meta_read_error, meta_parse_error, recover,
  settle_outcome, clean_up, process_deferred_cleanups, body_stat_error,
}
use tiny_s3_proxy.Cache.Eviction.Removed.{
  Keeps, after_query, remove_meta_and_poison-Keeps, remove_entry-Keeps, clean_orphan_body-Keeps,
  clean_orphan_poison-Keeps,
}

module _ {W : Type 0} (fs : FileSystem W) (from_slice : Bytes → Option CacheMeta)
    {bytes : FilePath → W → ℕ} (lawful : IsLawful fs bytes) where
  try_recover_entry-Shrinks :
      (paths : EntryPaths) (w : W) → Shrinks bytes w (try_recover_entry fs from_slice paths w).1
  unfolding try_recover_entry
  try_recover_entry-Shrinks paths w q =
      let w1 = (fs.metadata paths.body_path w).1 in
      ground
        (arith, lawful.metadata_keeps paths.body_path q w, lawful.read_keeps paths.meta_path q w1)

  -- A recovered candidate fits.
  abbrev RecoveredFits : RecoverOutcome × W → Type 0
  RecoveredFits (recovered size candidate, w') = left bytes candidate w' ≤ candidate.size
  RecoveredFits _ = Unit

  try_recover_entry-Fits :
      (paths : EntryPaths) (w : W) → RecoveredFits (try_recover_entry fs from_slice paths w)
  unfolding try_recover_entry
  try_recover_entry-Fits paths w =
      let w1 = (fs.metadata paths.body_path w).1 in
      ground (
        arith,
        lawful.metadata_reports paths.body_path w,
        lawful.metadata_keeps paths.body_path paths.body_path w,
        lawful.read_reads paths.meta_path w1,
        lawful.read_keeps paths.meta_path paths.body_path w1,
        lawful.read_keeps paths.meta_path paths.meta_path w1,
      )

  settle_outcome-Keeps :
      (body_failure meta_failure : String) (paths : EntryPaths) (t : Tally)
      (outcome : RecoverOutcome) (w : W)
      → Fits bytes t.candidates w
      → RecoveredFits (outcome, w)
      → Keeps fs from_slice lawful w
          (settle_outcome fs from_slice body_failure meta_failure paths t outcome w)
  unfolding settle_outcome recover abort_at record_deferred_cleanup_failure
  settle_outcome-Keeps bf mf paths t (recovered size c) w fits new =
      (Fits-append bytes t.candidates (c ∷ []) w fits (new, tt), λ q. omega arith)
  settle_outcome-Keeps bf mf paths t body_missing w fits new =
      remove_meta_and_poison-Keeps fs from_slice lawful paths t w fits
  settle_outcome-Keeps bf mf paths t (body_stat_error e) w fits new = (fits, λ q. omega arith)
  settle_outcome-Keeps bf mf paths t (meta_read_error e) w fits new = (fits, λ q. omega arith)
  settle_outcome-Keeps bf mf paths t meta_parse_error w fits new =
      remove_entry-Keeps fs from_slice lawful paths t w fits

  clean_entry-Keeps :
      (body_failure meta_failure : String) (paths : EntryPaths) (t : Tally) (w : W)
      → Fits bytes t.candidates w
      → Keeps fs from_slice lawful w (clean_entry fs from_slice body_failure meta_failure paths t w)
  unfolding clean_entry
  clean_entry-Keeps bf mf paths t w fits =
      let (outcome, w1) = try_recover_entry fs from_slice paths w in
      let query = try_recover_entry-Shrinks paths w in
      after_query fs from_slice lawful t w w1 (clean_entry fs from_slice bf mf paths t w) query (
        settle_outcome-Keeps bf mf paths t outcome w1
          (Fits-Shrinks bytes t.candidates w w1 query fits) (try_recover_entry-Fits paths w))

  clean_up-Keeps :
      (cleanup : DeferredCleanup) (t : Tally) (w : W)
      → Fits bytes t.candidates w
      → Keeps fs from_slice lawful w (clean_up fs from_slice cleanup t w)
  unfolding clean_up
  clean_up-Keeps (orphan_body path hash) t w h =
      clean_orphan_body-Keeps fs from_slice lawful path hash t w h
  clean_up-Keeps (orphan_poison path hash) t w h =
      clean_orphan_poison-Keeps fs from_slice lawful path hash t w h
  clean_up-Keeps (corrupt_entry paths) t w h =
      clean_entry-Keeps "stat body during locked eviction cleanup"
        "read metadata during locked eviction cleanup" paths t w h
  clean_up-Keeps (malformed_hash paths) t w h = remove_entry-Keeps fs from_slice lawful paths t w h
  clean_up-Keeps (missing_body paths) t w h =
      clean_entry-Keeps "stat body during locked missing-body cleanup"
        "read metadata during locked missing-body cleanup" paths t w h

  pub process_deferred_cleanups-Keeps :
      (cleanups : List DeferredCleanup) (t : Tally) (w : W)
      → Fits bytes t.candidates w
      → Keeps fs from_slice lawful w (process_deferred_cleanups fs from_slice cleanups t w)
  unfolding process_deferred_cleanups
  process_deferred_cleanups-Keeps [] t w fits = (fits, λ q. omega arith)
  process_deferred_cleanups-Keeps (cleanup ∷ cleanups) t w fits =
      let ((r, t1), w1) = clean_up fs from_slice cleanup t w in
      let first = clean_up-Keeps cleanup t w fits in
      let rest = process_deferred_cleanups-Keeps cleanups t1 w1 first.0 in
      elim (Result-cases r) [
        | inl (e, failed) ↦ rw (failed, process_deferred_cleanups) first
        | inr (_, went) ↦
            rw (went, process_deferred_cleanups) (rest.0, λ q. omega (arith, first.1 q, rest.1 q))
      ]
