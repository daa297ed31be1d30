-- ===== src/Cache/Layout.antt =====
-- The walk over the shards objects/XX/YY (src/cache/layout.rs).
pub mod BestEffort
pub mod Shards
mod Tests
use tiny_s3_proxy.Prelude.{
  Bool, List, Option, Result, String, [], all, err, false, if◌then◌else◌, length, leb, none, ok,
  some, true, ◌&&◌, ◌++◌, ◌==◌, ◌||◌, ◌∷◌, ℕ, attempt,
}
use tiny_s3_proxy.Text.{Bytes, codes}
use tiny_s3_proxy.Cache.FileSystem.{
  DirEntry, FilePath, FileSystem, IoError, contextual_io_error, is_not_found,
}

pub record HashDirCollection : Type 0 where
  pub dirs : List FilePath
  pub incomplete : Bool

pub data WalkMode : Type 0 where
  strict best_effort : WalkMode

unfoldable pub is_shard_digit : ℕ → Bool
is_shard_digit b = (leb b'0' b && leb b b'9') || (leb b'a' b && leb b b'f')

-- A name that is not UTF-8 is none.
unfoldable pub is_hash_shard_name : Option Bytes → Bool
unfolding is_shard_digit
is_hash_shard_name none = false
is_hash_shard_name (some s) = length s == 2 && all is_shard_digit s

-- In a best-effort walk an error only marks the collection as incomplete.
unfoldable pub handle_walk_error :
    WalkMode → HashDirCollection → String → FilePath → IoError → Result IoError HashDirCollection
handle_walk_error strict collection operation path e =
    err (contextual_io_error (codes operation) path e)
handle_walk_error best_effort collection operation path e =
    ok (record collection { incomplete = true })

unfoldable pub push_dir : HashDirCollection → FilePath → HashDirCollection
push_dir collection path = record collection { dirs = collection.dirs ++ path ∷ [] }

-- A `NotFound` is passed over, any other error handled.
unfoldable pub missing_or_handle :
    WalkMode → HashDirCollection → String → FilePath → IoError → Result IoError HashDirCollection
unfolding handle_walk_error
missing_or_handle mode collection operation path e =
    if is_not_found e then ok collection else handle_walk_error mode collection operation path e

module _ {W : Type 0} (fs : FileSystem W) (mode : WalkMode) where
  unfoldable pub visit_inner :
      DirEntry → HashDirCollection → W → Result IoError HashDirCollection × W
  unfolding missing_or_handle push_dir
  visit_inner entry collection w =
      let (r, w1) = fs.is_dir entry w in
      if is_hash_shard_name entry.file_name
      then elim r [
        | ok true ↦ (ok (push_dir collection entry.path), w1)
        | ok false ↦ (ok collection, w1)
        | err e ↦ (missing_or_handle mode collection "check hash cache dir type" entry.path e, w1)
      ]
      else (ok collection, w)

  unfoldable pub walk_inner :
      (d1_path : FilePath)
      → List (Result IoError DirEntry)
      → HashDirCollection
      → W
      → Result IoError HashDirCollection × W
  unfolding visit_inner handle_walk_error
  walk_inner d1_path [] collection w = (ok collection, w)
  walk_inner d1_path (err e ∷ entries) collection w =
      (handle_walk_error mode collection "iterate hash prefix dir" d1_path e, w)
  walk_inner d1_path (ok entry ∷ entries) collection w =
      attempt (visit_inner entry collection w)
        λ collection' w1. walk_inner d1_path entries collection' w1

  unfoldable pub enter_prefix_dir :
      DirEntry → HashDirCollection → W → Result IoError HashDirCollection × W
  unfolding walk_inner missing_or_handle
  enter_prefix_dir entry collection w =
      let (r, w1) = fs.read_dir entry.path w in
      elim r [
        | ok entries ↦ walk_inner entry.path entries collection w1
        | err e ↦ (missing_or_handle mode collection "read hash prefix dir" entry.path e, w1)
      ]

  unfoldable pub visit_outer :
      DirEntry → HashDirCollection → W → Result IoError HashDirCollection × W
  unfolding enter_prefix_dir missing_or_handle
  visit_outer entry collection w =
      let (r, w1) = fs.is_dir entry w in
      if is_hash_shard_name entry.file_name
      then elim r [
        | ok true ↦ enter_prefix_dir entry collection w1
        | ok false ↦ (ok collection, w1)
        | err e ↦ (missing_or_handle mode collection "check hash prefix dir type" entry.path e, w1)
      ]
      else (ok collection, w)

  unfoldable pub walk_outer :
      (objects_dir : FilePath)
      → List (Result IoError DirEntry)
      → HashDirCollection
      → W
      → Result IoError HashDirCollection × W
  unfolding visit_outer handle_walk_error
  walk_outer objects_dir [] collection w = (ok collection, w)
  walk_outer objects_dir (err e ∷ entries) collection w =
      (handle_walk_error mode collection "iterate objects dir" objects_dir e, w)
  walk_outer objects_dir (ok entry ∷ entries) collection w =
      attempt (visit_outer entry collection w)
        λ collection' w1. walk_outer objects_dir entries collection' w1

  unfoldable pub collect_hash_dirs_inner : FilePath → W → Result IoError HashDirCollection × W
  unfolding walk_outer missing_or_handle
  collect_hash_dirs_inner objects_dir w =
      let start : HashDirCollection = record { dirs = []; incomplete = false } in
      let (r, w1) = fs.read_dir objects_dir w in
      elim r [
        | ok entries ↦ walk_outer objects_dir entries start w1
        | err e ↦ (missing_or_handle mode start "read objects dir" objects_dir e, w1)
      ]

module _ {W : Type 0} (fs : FileSystem W) where
  -- The `Err` arm is `unreachable!`: it is `none` here.
  unfoldable pub collect_hash_dirs_best_effort : FilePath → W → Option HashDirCollection × W
  unfolding collect_hash_dirs_inner
  collect_hash_dirs_best_effort objects_dir w =
      let (r, w1) = collect_hash_dirs_inner fs best_effort objects_dir w in
      elim r [ ok collection ↦ (some collection, w1) | err e ↦ (none, w1) ]

  unfoldable pub collect_hash_dirs_strict : FilePath → W → Result IoError (List FilePath) × W
  unfolding collect_hash_dirs_inner
  collect_hash_dirs_strict objects_dir w =
      attempt (collect_hash_dirs_inner fs strict objects_dir w)
        λ collection w1. (ok collection.dirs, w1)
