-- ===== src/Cache/Eviction/Removed.antt =====
-- Cleanups that remove files keep the candidates within their sizes (src/cache/eviction.rs).

use tiny_s3_proxy.Prelude.{
  Option, Result, arith, ℕ, ◌≡◌, Bool-cases, Result-cases, inl, inr, err, ok,
}
use tiny_s3_proxy.Text.{Bytes}
use tiny_s3_proxy.Cache.FileSystem.{FilePath, FileSystem, join, parent}
use tiny_s3_proxy.Cache.FileSystem.Lawful.{IsLawful}
use tiny_s3_proxy.Cache.Metadata.{CacheMeta}
use tiny_s3_proxy.Cache.Eviction.{
  EntryPaths, EvictionScanError, remove_entry_files, remove_file_or_reclaim_size, attempt,
}
use tiny_s3_proxy.Cache.Eviction.Budget.{Fits, Shrinks}
use tiny_s3_proxy.Cache.Eviction.Covered.{Fits-Shrinks}
use tiny_s3_proxy.Cache.Eviction.Remove.{remove_file_or_reclaim_size-le}
use tiny_s3_proxy.Cache.Eviction.Shard.{meta_name}
use tiny_s3_proxy.Cache.Eviction.Cleanup.{
  Tally, abort, abort_at, account_unreclaimed, clean_orphan_body, clean_orphan_poison,
  count_orphan_body, finish, record_deferred_cleanup_failure, remove_and_account, remove_entry,
  remove_meta_and_poison, remove_one,
}

module _ {W : Type 0} (bytes : FilePath → W → ℕ) where
  attempt-Shrinks :
      {E A B : Type 0} (w : W) (m : Result E A × W) (next : A → W → Result E B × W)
      → Shrinks bytes w m.1
      → ((a : A) (w' : W) → Shrinks bytes w' (next a w').1)
      → Shrinks bytes w (attempt m next).1
  attempt-Shrinks w (err e, w1) next h rest = h
  attempt-Shrinks w (ok a, w1) next h rest = λ q. omega (arith, h q, rest a w1 q)

module _ {W : Type 0} (fs : FileSystem W) (from_slice : Bytes → Option CacheMeta)
    {bytes : FilePath → W → ℕ} (lawful : IsLawful fs bytes) where
  -- A cleanup keeps the candidates within their sizes, and lets no file grow.
  abbrev pub Keeps : W → (Result EvictionScanError (Unit {0}) × Tally) × W → Type 0
  Keeps w ((r, t'), w') = Fits bytes t'.candidates w' × Shrinks bytes w w'

  -- A cleanup that leaves the candidates alone.
  keep :
      (t : Tally) (w : W) (m : (Result EvictionScanError (Unit {0}) × Tally) × W)
      → m.0.1.candidates ≡ t.candidates
      → Shrinks bytes w m.1
      → Fits bytes t.candidates w
      → Keeps w m
  keep t w m same shrinks fits =
      (rw same (Fits-Shrinks bytes t.candidates w m.1 shrinks fits), shrinks)

  remove_one-Keeps :
      (path : FilePath) (t : Tally) (w : W)
      → Fits bytes t.candidates w
      → Keeps w (remove_one fs from_slice path t w)
  unfolding remove_one remove_and_account account_unreclaimed finish abort
      record_deferred_cleanup_failure
  remove_one-Keeps path t w fits =
      keep t w (remove_one fs from_slice path t w) (ground arith)
        (λ q. ground (arith, remove_file_or_reclaim_size-le fs lawful path q w)) fits

  pub remove_meta_and_poison-Keeps :
      (paths : EntryPaths) (t : Tally) (w : W)
      → Fits bytes t.candidates w
      → Keeps w (remove_meta_and_poison fs from_slice paths t w)
  unfolding remove_meta_and_poison remove_and_account account_unreclaimed finish abort
      record_deferred_cleanup_failure
  remove_meta_and_poison-Keeps paths t w fits =
      let w1 = (remove_file_or_reclaim_size fs paths.meta_path w).1 in
      keep t w (remove_meta_and_poison fs from_slice paths t w) (ground arith)
        (λ q. ground (
          arith,
          remove_file_or_reclaim_size-le fs lawful paths.meta_path q w,
          remove_file_or_reclaim_size-le fs lawful paths.poison_path q w1,
        ))
        fits

  remove_entry_files-Shrinks :
      (paths : EntryPaths) (w : W) → Shrinks bytes w (remove_entry_files fs paths w).1
  unfolding remove_entry_files
  remove_entry_files-Shrinks paths w =
      let removes =
        λ (p : FilePath) (w : W) (q : FilePath). remove_file_or_reclaim_size-le fs lawful p q w in
      attempt-Shrinks bytes w (remove_file_or_reclaim_size fs paths.meta_path w) _
        (removes paths.meta_path w)
        λ meta w1.
          attempt-Shrinks bytes w1 (remove_file_or_reclaim_size fs paths.body_path w1) _
            (removes paths.body_path w1)
            λ body w2.
              attempt-Shrinks bytes w2 (remove_file_or_reclaim_size fs paths.poison_path w2) _
                (removes paths.poison_path w2) λ poison w3 q. omega arith

  pub remove_entry-Keeps :
      (paths : EntryPaths) (t : Tally) (w : W)
      → Fits bytes t.candidates w
      → Keeps w (remove_entry fs from_slice paths t w)
  unfolding remove_entry account_unreclaimed finish abort record_deferred_cleanup_failure
  remove_entry-Keeps paths t w fits =
      keep t w (remove_entry fs from_slice paths t w) (ground arith)
        (λ q. ground (arith, remove_entry_files-Shrinks paths w q)) fits

  -- A cleanup after a query.
  pub after_query :
      (t : Tally) (w w1 : W) (m : (Result EvictionScanError (Unit {0}) × Tally) × W)
      → Shrinks bytes w w1
      → Keeps w1 m
      → Keeps w m
  after_query t w w1 m query kept = (kept.0, λ q. omega (arith, query q, kept.1 q))

  count_orphan_body-Keeps :
      (path : FilePath) (t : Tally) (w : W)
      → Fits bytes t.candidates w
      → Keeps w (count_orphan_body fs from_slice path t w)
  unfolding count_orphan_body record_deferred_cleanup_failure abort_at
  count_orphan_body-Keeps path t w fits =
      keep t w (count_orphan_body fs from_slice path t w) (ground arith)
        (λ q. ground (arith, lawful.metadata_keeps path q w)) fits

  pub clean_orphan_body-Keeps :
      (path : FilePath) (hash : Bytes) (t : Tally) (w : W)
      → Fits bytes t.candidates w
      → Keeps w (clean_orphan_body fs from_slice path hash t w)
  unfolding clean_orphan_body
  clean_orphan_body-Keeps path hash t w fits =
      let meta_path = join (parent path) (meta_name hash) in
      let w1 = (fs.try_exists meta_path w).1 in
      let query : Shrinks bytes w w1 = λ q. omega (arith, lawful.try_exists_keeps meta_path q w) in
      let fits1 = Fits-Shrinks bytes t.candidates w w1 query fits in
      after_query t w w1 (clean_orphan_body fs from_slice path hash t w) query
        (elim (Result-cases (fs.try_exists meta_path w).0) [
          | inl (e, failed) ↦
              rw (failed, clean_orphan_body) (count_orphan_body-Keeps path t w1 fits1)
          | inr (exists, went) ↦ elim (Bool-cases exists) [
            | inl yes_meta ↦ rw (went, clean_orphan_body, yes_meta) (fits1, λ q. omega arith)
            | inr no_meta ↦ rw (went, clean_orphan_body, no_meta) (remove_one-Keeps path t w1 fits1)
          ]
        ])

  pub clean_orphan_poison-Keeps :
      (path : FilePath) (hash : Bytes) (t : Tally) (w : W)
      → Fits bytes t.candidates w
      → Keeps w (clean_orphan_poison fs from_slice path hash t w)
  unfolding clean_orphan_poison record_deferred_cleanup_failure
  clean_orphan_poison-Keeps path hash t w fits =
      let meta_path = join (parent path) (meta_name hash) in
      let w1 = (fs.try_exists meta_path w).1 in
      let query : Shrinks bytes w w1 = λ q. omega (arith, lawful.try_exists_keeps meta_path q w) in
      let fits1 = Fits-Shrinks bytes t.candidates w w1 query fits in
      after_query t w w1 (clean_orphan_poison fs from_slice path hash t w) query
        (elim (Result-cases (fs.try_exists meta_path w).0) [
          | inl (e, failed) ↦ rw (failed, clean_orphan_poison) (fits1, λ q. omega arith)
          | inr (exists, went) ↦ elim (Bool-cases exists) [
            | inl yes_meta ↦ rw (went, clean_orphan_poison, yes_meta) (fits1, λ q. omega arith)
            | inr no_meta ↦
                rw (went, clean_orphan_poison, no_meta) (remove_one-Keeps path t w1 fits1)
          ]
        ])
