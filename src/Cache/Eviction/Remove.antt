-- ===== src/Cache/Eviction/Remove.antt =====
-- What the removal of files counts, for a file system that nobody else writes to
-- (src/cache/eviction.rs).
use tiny_s3_proxy.Prelude.{◌+◌, ◌≤◌, ℕ, arith, Ensures, Ensures-and, attempt-Ensures}
use tiny_s3_proxy.Cache.FileSystem.{FilePath, FileSystem}
use tiny_s3_proxy.Cache.FileSystem.Lawful.{IsLawful}
use tiny_s3_proxy.Cache.Eviction.{
  EntryPaths, measure_unreclaimed_after_failed_remove, pre_stat_size, remove_entry_files,
  remove_file_or_reclaim_size,
}

module _ {W : Type 0} (bytes : FilePath → W → ℕ) where
  -- No more than `n` bytes of an entry's files are left.
  abbrev pub Left : EntryPaths → ℕ → W → Type 0
  Left paths n w = bytes paths.meta_path w + bytes paths.body_path w + bytes paths.poison_path w ≤ n

module _ {W : Type 0} (fs : FileSystem W) {bytes : FilePath → W → ℕ}
    (lawful : IsLawful fs bytes) where
  -- No file grows.
  pub remove_file_or_reclaim_size-le :
      (path q : FilePath) (w : W) → bytes q (remove_file_or_reclaim_size fs path w).1 ≤ bytes q w
  unfolding remove_file_or_reclaim_size pre_stat_size measure_unreclaimed_after_failed_remove
  remove_file_or_reclaim_size-le path q w =
      let w1 = (fs.metadata path w).1 in
      let w2 = (fs.remove_file path w1).1 in
      ground (
        arith,
        lawful.metadata_keeps path q w,
        lawful.remove_le path q w1,
        lawful.metadata_keeps path q w2,
      )

  pub remove_file_or_reclaim_size_counts :
      (path : FilePath) (w : W)
      → Ensures (λ n w'. bytes path w' ≤ n) (remove_file_or_reclaim_size fs path w)
  unfolding remove_file_or_reclaim_size pre_stat_size measure_unreclaimed_after_failed_remove
  remove_file_or_reclaim_size_counts path w =
      let w1 = (fs.metadata path w).1 in
      let w2 = (fs.remove_file path w1).1 in
      ground (
        arith,
        lawful.metadata_keeps path path w,
        lawful.metadata_reports path w,
        lawful.remove_empties path w1,
        lawful.remove_le path path w1,
        lawful.metadata_keeps path path w2,
        lawful.metadata_reports path w2,
      )

  -- What is left of the file is counted, and no file grows.
  abbrev Counted : FilePath → W → ℕ → W → Type 0
  Counted path w n w' = (bytes path w' ≤ n) × ((q : FilePath) → bytes q w' ≤ bytes q w)

  pub remove_file_or_reclaim_size-Counted :
      (path : FilePath) (w : W) → Ensures (Counted path w) (remove_file_or_reclaim_size fs path w)
  remove_file_or_reclaim_size-Counted path w =
      Ensures-and (λ n w'. bytes path w' ≤ n) (λ w'. (q : FilePath) → bytes q w' ≤ bytes q w)
        (remove_file_or_reclaim_size fs path w) (remove_file_or_reclaim_size_counts path w)
        (λ q. remove_file_or_reclaim_size-le path q w)

  -- The bytes that the removal of an entry's three files returns cover what is left of them.
  pub remove_entry_files_counts :
      (paths : EntryPaths) (w : W) → Ensures (Left bytes paths) (remove_entry_files fs paths w)
  unfolding remove_entry_files
  remove_entry_files_counts paths w =
      let remove = remove_file_or_reclaim_size fs in
      let counted = remove_file_or_reclaim_size-Counted in
      attempt-Ensures (Counted paths.meta_path w) (Left bytes paths) (remove paths.meta_path w) _
        (counted paths.meta_path w)
        λ meta w1 in_meta.
          attempt-Ensures (Counted paths.body_path w1) (Left bytes paths)
            (remove paths.body_path w1) _ (counted paths.body_path w1)
            λ body w2 in_body.
              attempt-Ensures (Counted paths.poison_path w2) (Left bytes paths)
                (remove paths.poison_path w2) _ (counted paths.poison_path w2)
                λ poison w3 in_poison.
                  let after_body = in_body.1 paths.meta_path in
                  let meta_kept = in_poison.1 paths.meta_path in
                  let body_kept = in_poison.1 paths.body_path in
                  omega (arith, in_meta.0, in_body.0, in_poison.0, after_body, meta_kept, body_kept)
