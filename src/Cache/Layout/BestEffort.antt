-- ===== src/Cache/Layout/BestEffort.antt =====
-- The best-effort walk never fails, and the strict walk is complete (src/cache/layout.rs).
use tiny_s3_proxy.Prelude.{
  Fails, List, Result, [], arith, attempt-Fails, err, ok, ◌∷◌, ◌≡◌, Result-cases, inl, inr, some,
  Fails-at,
}
use tiny_s3_proxy.Cache.FileSystem.{DirEntry, FilePath, FileSystem, IoError}
use tiny_s3_proxy.Cache.Layout.{
  HashDirCollection, best_effort, collect_hash_dirs_best_effort, collect_hash_dirs_inner,
  enter_prefix_dir, handle_walk_error, missing_or_handle, visit_inner, visit_outer, walk_inner,
  walk_outer,
}

-- No error is returned.
abbrev Never : IoError → Type 0
Never e = ⊥

module _ {W : Type 0} (fs : FileSystem W) where
  visit_inner-Fails :
      (entry : DirEntry) (c : HashDirCollection) (w : W)
      → Fails Never (visit_inner fs best_effort entry c w)
  unfolding visit_inner missing_or_handle handle_walk_error
  visit_inner-Fails entry c w = ground arith

  walk_inner-Fails :
      (d1_path : FilePath) (entries : List (Result IoError DirEntry)) (c : HashDirCollection)
      (w : W)
      → Fails Never (walk_inner fs best_effort d1_path entries c w)
  unfolding walk_inner handle_walk_error
  walk_inner-Fails d1_path [] c w = tt
  walk_inner-Fails d1_path (err e ∷ entries) c w = tt
  walk_inner-Fails d1_path (ok entry ∷ entries) c w =
      attempt-Fails Never (visit_inner fs best_effort entry c w) _ (visit_inner-Fails entry c w)
        (λ c' w'. walk_inner-Fails d1_path entries c' w')

  enter_prefix_dir-Fails :
      (entry : DirEntry) (c : HashDirCollection) (w : W)
      → Fails Never (enter_prefix_dir fs best_effort entry c w)
  unfolding enter_prefix_dir missing_or_handle handle_walk_error
  enter_prefix_dir-Fails entry c w = grind (arith, walk_inner-Fails)

  visit_outer-Fails :
      (entry : DirEntry) (c : HashDirCollection) (w : W)
      → Fails Never (visit_outer fs best_effort entry c w)
  unfolding visit_outer missing_or_handle handle_walk_error
  visit_outer-Fails entry c w = grind (arith, enter_prefix_dir-Fails)

  walk_outer-Fails :
      (dir : FilePath) (entries : List (Result IoError DirEntry)) (c : HashDirCollection) (w : W)
      → Fails Never (walk_outer fs best_effort dir entries c w)
  unfolding walk_outer handle_walk_error
  walk_outer-Fails dir [] c w = tt
  walk_outer-Fails dir (err e ∷ entries) c w = tt
  walk_outer-Fails dir (ok entry ∷ entries) c w =
      attempt-Fails Never (visit_outer fs best_effort entry c w) _ (visit_outer-Fails entry c w)
        (λ c' w'. walk_outer-Fails dir entries c' w')

  collect_hash_dirs_inner-Fails :
      (dir : FilePath) (w : W) → Fails Never (collect_hash_dirs_inner fs best_effort dir w)
  unfolding collect_hash_dirs_inner missing_or_handle handle_walk_error
  collect_hash_dirs_inner-Fails dir w = grind (arith, walk_outer-Fails)

  -- The `unreachable!` of the best-effort walk is not reached.
  pub collect_hash_dirs_best_effort_total :
      (dir : FilePath) (w : W)
      → (collection : HashDirCollection) × ((collect_hash_dirs_best_effort fs dir w).0
          ≡ some collection)
  unfolding collect_hash_dirs_best_effort
  collect_hash_dirs_best_effort_total dir w =
      let never = collect_hash_dirs_inner-Fails dir w in
      elim (Result-cases (collect_hash_dirs_inner fs best_effort dir w).0) [
        | inl (e, failed) ↦ absurd (Fails-at Never _ e never failed)
        | inr (collection, went) ↦ (collection, rw (went, collect_hash_dirs_best_effort))
      ]
