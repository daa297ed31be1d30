-- ===== src/Cache/Eviction/Tests.antt =====
-- Eviction passes over a small cache in memory (src/cache/eviction.rs).
use tiny_s3_proxy.Prelude.{
  List, Option, [], arith, false, none, ok, refl, some, ◌++◌, ◌+◌, ◌∷◌, ◌≡◌, ◌≢◌, ◌≤◌, Bool,
  Ensures,
}
use tiny_s3_proxy.Text.{Bytes, bytes_eq, codes, split_once, starts_with, strip_prefix}
use tiny_s3_proxy.Cache.FileSystem.{DirEntry, FilePath, FileSystem, IoError}
use tiny_s3_proxy.Cache.FileSystem.Memory.{
  Disk, delete_file, disk_bytes, disk_fs, disk_fs-IsLawful, measure_file, read_file,
}
use tiny_s3_proxy.Cache.Metadata.{CacheMeta, DateTime}
use tiny_s3_proxy.Cache.Stats.{no_stats}
use tiny_s3_proxy.Cache.Eviction.{EntryPaths, EvictionCandidate, remove_entry_files}
use tiny_s3_proxy.Cache.Eviction.Candidate.{Budget, try_evict_candidate}
use tiny_s3_proxy.Cache.Eviction.Collect.{ScanResult, collect_candidates}
use tiny_s3_proxy.Cache.Eviction.Pass.{evict_over_budget, run_eviction_pass_inner, sum_sizes}
use tiny_s3_proxy.Cache.Eviction.Budget.{sum_left}
use tiny_s3_proxy.Cache.Eviction.Composed.{evict_after_scan-covers}
use tiny_s3_proxy.Cache.Eviction.Kept.{try_evict_candidate-off_disk, try_evict_candidate_keeps}
use tiny_s3_proxy.Cache.Eviction.Lru.{Evicts, evict_over_budget-Evicts}
use tiny_s3_proxy.Cache.Eviction.Reconciled.{Reconciles, collect_candidates-Reconciles}
use tiny_s3_proxy.Cache.Eviction.Remove.{Left, remove_entry_files_counts}

abbrev accessed : DateTime → CacheMeta
accessed time = record {
  bucket = codes "b";
  key = codes "k";
  etag = none;
  last_modified = none;
  content_type = none;
  content_length = 0;
  cache_written_at = 0;
  fill_id = 1;
  metadata_version = 0;
  last_accessed_at = time;
  hit_count = 0;
  source_status = 200;
  metadata = [];
  extra_headers = [];
  head_extra_headers = [];
  head_checksum_headers = [];
  checksum_mode_checked = false;
  head_metadata_checked = false;
  head_checksum_checked = false;
}

-- Metadata texts of one byte, the time of the last access.
abbrev parse_meta : Bytes → Option CacheMeta
parse_meta (time ∷ []) = some (accessed time)
parse_meta _ = none

abbrev shard : FilePath
shard = codes "c/objects/ab/cd"

abbrev in_shard : Bytes → DirEntry
in_shard name = record { path = shard ++ b'/' ∷ name; file_name = some name }

abbrev dir : (path name : Bytes) → DirEntry
dir path name = record { path = path; file_name = some name }

-- Two objects, the second accessed first, an orphan body and a corrupt entry.
abbrev small_cache : (locked : Bytes → Bool) → Disk
small_cache locked = record {
  files =
      (codes "c/objects", codes "")
      ∷ (codes "c/objects/ab/cd/abcd1.meta.json", 9 ∷ [])
      ∷ (codes "c/objects/ab/cd/abcd1.body", codes "first")
      ∷ (codes "c/objects/ab/cd/abcd2.meta.json", 5 ∷ [])
      ∷ (codes "c/objects/ab/cd/abcd2.body", codes "other")
      ∷ (codes "c/objects/ab/cd/abcd3.body", codes "orphan")
      ∷ [];
  dirs =
      (codes "c/objects", dir (codes "c/objects/ab") (codes "ab") ∷ [])
      ∷ (codes "c/objects/ab", dir shard (codes "cd") ∷ [])
      ∷ (
        shard,
        in_shard (codes "abcd1.meta.json")
            ∷ in_shard (codes "abcd1.body")
            ∷ in_shard (codes "abcd2.meta.json")
            ∷ in_shard (codes "abcd2.body")
            ∷ in_shard (codes "abcd3.body")
            ∷ [],
      )
      ∷ [];
  locked = locked;
  unreadable = λ p. false;
}

abbrev nothing_locked : Bytes → Bool
nothing_locked p = false

abbrev second_locked : Bytes → Bool
second_locked p = bytes_eq p (codes "c/objects/ab/cd/abcd2.body")

abbrev no_panics : FilePath → Disk → Option Bytes
no_panics p d = none

abbrev names_left : List (Bytes × Bytes) → List Bytes
names_left [] = []
names_left ((name, text) ∷ files) = name ∷ names_left files

-- Within nine bytes one entry has room: the one accessed last stays, and the orphan goes.
pass-small_cache :
    names_left
      (run_eviction_pass_inner disk_fs parse_meta no_panics []
        (codes "c")
        9
        no_stats
        (small_cache nothing_locked)).1.files
    ≡ codes "c/objects"
      ∷ codes "c/objects/ab/cd/abcd1.meta.json"
      ∷ codes "c/objects/ab/cd/abcd1.body"
      ∷ []
unfolding run_eviction_pass_inner tiny_s3_proxy.Dict.get bytes_eq
    tiny_s3_proxy.Cache.FileSystem.join tiny_s3_proxy.Cache.Layout.is_hash_shard_name
    tiny_s3_proxy.Cache.FileSystem.ends_with tiny_s3_proxy.Text.starts_with read_file
    tiny_s3_proxy.Cache.FileSystem.trim_end_matches tiny_s3_proxy.Text.strip_prefix measure_file
    tiny_s3_proxy.Cache.FileSystem.parent tiny_s3_proxy.Text.split_once
    tiny_s3_proxy.Cache.Eviction.remove_file_or_reclaim_size delete_file
    tiny_s3_proxy.Cache.FileSystem.with_extension
pass-small_cache = refl

abbrev candidate : (name : Bytes) → DateTime → EvictionCandidate
candidate name time = record {
  body_path = shard ++ b'/' ∷ (name ++ codes ".body");
  meta_path = shard ++ b'/' ∷ (name ++ codes ".meta.json");
  hash = name;
  fill_id = 1;
  last_accessed_at = time;
  size = 6;
}

abbrev second : EvictionCandidate
second = candidate (codes "abcd2") 5

abbrev found : ScanResult
found = record {
  candidates = candidate (codes "abcd1") 9 ∷ second ∷ [];
  total_bytes = 12;
  hash_dirs = 1;
  deferred_cleanup_count = 1;
  deferred_cleanup_failed = 0;
}

collect-small_cache :
    (collect_candidates disk_fs parse_meta no_panics []
      (codes "c/objects")
      no_stats
      (small_cache second_locked)).0.0
    ≡ ok found
unfolding collect_candidates tiny_s3_proxy.Dict.get bytes_eq
    tiny_s3_proxy.Cache.Layout.is_hash_shard_name tiny_s3_proxy.Cache.FileSystem.ends_with
    starts_with read_file tiny_s3_proxy.Cache.FileSystem.trim_end_matches strip_prefix measure_file
    tiny_s3_proxy.Cache.FileSystem.join tiny_s3_proxy.Cache.FileSystem.parent split_once
    tiny_s3_proxy.Cache.Eviction.remove_file_or_reclaim_size delete_file
collect-small_cache = refl

evict_after_scan-covers_example :
    let ((r, stats), d1) =
      collect_candidates disk_fs parse_meta no_panics []
        (codes "c/objects")
        no_stats
        (small_cache second_locked) in
    let (budget, d2) = evict_over_budget disk_fs parse_meta 9 found stats d1 in
    12 + sum_left disk_bytes found.candidates d2 ≤ budget.current_size + sum_sizes found.candidates
evict_after_scan-covers_example =
    evict_after_scan-covers disk_fs parse_meta no_panics disk_fs-IsLawful [] (codes "c/objects")
      no_stats (small_cache second_locked) 9 found collect-small_cache (omega arith)

evict_over_budget-Evicts_example :
    Evicts disk_fs parse_meta 9 found no_stats
      (small_cache nothing_locked)
      (evict_over_budget disk_fs parse_meta 9 found no_stats (small_cache nothing_locked))
evict_over_budget-Evicts_example =
    evict_over_budget-Evicts disk_fs parse_meta 9 found no_stats (small_cache nothing_locked)

collect_candidates-Reconciles_example : Reconciles no_stats (
    collect_candidates disk_fs parse_meta no_panics []
      (codes "c/objects")
      no_stats
      (small_cache second_locked))
collect_candidates-Reconciles_example =
    collect_candidates-Reconciles disk_fs parse_meta no_panics [] (codes "c/objects") no_stats
      (small_cache second_locked)

abbrev budget_12 : Budget
budget_12 = record { current_size = 12; evicted = 0; stats = no_stats }

-- The entry was accessed after the scan.
abbrev stale : EvictionCandidate
stale = candidate (codes "abcd2") 4

try_evict_candidate_keeps_example :
    let d = small_cache nothing_locked in
    let (b, d') = try_evict_candidate disk_fs parse_meta stale budget_12 d in
    ((q : FilePath) → disk_bytes q d' ≡ disk_bytes q d) × (b.evicted ≡ 0) × (b.stats ≡ no_stats)
unfolding read_file tiny_s3_proxy.Dict.get bytes_eq
    tiny_s3_proxy.Cache.Eviction.Candidate.identity_changed
try_evict_candidate_keeps_example =
    try_evict_candidate_keeps disk_fs parse_meta disk_fs-IsLawful stale budget_12
      (small_cache nothing_locked) (accessed 5, refl, refl)

evicts_one :
    (try_evict_candidate disk_fs parse_meta second budget_12 (small_cache nothing_locked)).0.evicted
    ≡ 1
unfolding try_evict_candidate read_file tiny_s3_proxy.Dict.get bytes_eq delete_file
    tiny_s3_proxy.Cache.FileSystem.with_extension split_once strip_prefix
evicts_one = refl

evicts_another :
    (try_evict_candidate disk_fs parse_meta second budget_12 (small_cache nothing_locked)).0.evicted
    ≢ 0
evicts_another e = absurd (omega (arith, evicts_one, e))

try_evict_candidate-off_disk_example :
    let (b, d) =
      try_evict_candidate disk_fs parse_meta second budget_12 (small_cache nothing_locked) in
    (b.evicted ≡ 1) × (disk_bytes second.body_path d ≡ 0) × (disk_bytes second.meta_path d ≡ 0)
try_evict_candidate-off_disk_example =
    try_evict_candidate-off_disk disk_fs parse_meta disk_fs-IsLawful second budget_12
      (small_cache nothing_locked) evicts_another

abbrev second_paths : EntryPaths
second_paths = record {
  meta_path = second.meta_path;
  body_path = second.body_path;
  poison_path = shard ++ codes "/abcd2.poisoned";
  hash = codes "abcd2";
}

-- The body cannot be removed.
remove-second_locked :
    (remove_entry_files disk_fs second_paths (small_cache second_locked)).0 ≡ ok 5
unfolding remove_entry_files delete_file tiny_s3_proxy.Dict.get bytes_eq measure_file
remove-second_locked = refl

remove_entry_files_counts_example :
    Ensures
      (Left disk_bytes second_paths)
      (remove_entry_files disk_fs second_paths (small_cache second_locked))
remove_entry_files_counts_example =
    remove_entry_files_counts disk_fs disk_fs-IsLawful second_paths (small_cache second_locked)
