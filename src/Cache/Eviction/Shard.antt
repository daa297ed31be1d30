-- ===== src/Cache/Eviction/Shard.antt =====
-- The scan of one hash directory (src/cache/eviction.rs). The parse of a metadata file is serde's.
use tiny_s3_proxy.Prelude.{
  Bool, List, Option, Result, [], all, err, false, if◌then◌else◌, length, leb, ltb, none, not, ok,
  some, true, ℕ, ◌&&◌, ◌++◌, ◌+◌, ◌||◌, ◌∷◌, String,
}
use tiny_s3_proxy.Text.{Bytes, codes}
use tiny_s3_proxy.Cache.FileSystem.{
  DirEntry, FilePath, FileSystem, IoError, ends_with, invalid_data, is_not_found, join,
  trim_end_matches,
}
use tiny_s3_proxy.Cache.Metadata.{CacheMeta}
use tiny_s3_proxy.Cache.Eviction.{
  DeferredCleanup, EntryPaths, EvictionCandidate, EvictionScanError, corrupt_entry,
  eviction_io_error, hash_dir_scan, malformed_hash, missing_body, orphan_body, orphan_poison,
  attempt,
}

pub record DirScanResult : Type 0 where
  pub candidates : List EvictionCandidate
  pub total_bytes : ℕ
  pub entry_count : ℕ
  pub deferred_cleanups : List DeferredCleanup

unfoldable pub no_entries : DirScanResult
no_entries = record { candidates = []; total_bytes = 0; entry_count = 0; deferred_cleanups = [] }

unfoldable pub defer : DirScanResult → DeferredCleanup → DirScanResult
defer result cleanup = record result {
  deferred_cleanups = result.deferred_cleanups ++ cleanup ∷ [];
}

unfoldable pub push_candidate : DirScanResult → EvictionCandidate → DirScanResult
push_candidate result candidate = record result {
  candidates = result.candidates ++ candidate ∷ [];
  total_bytes = result.total_bytes + candidate.size;
  entry_count = result.entry_count + 1;
}

unfoldable pub meta_name : (hash : Bytes) → Bytes
meta_name hash = hash ++ codes ".meta.json"

unfoldable pub body_name : (hash : Bytes) → Bytes
body_name hash = hash ++ codes ".body"

unfoldable pub poison_name : (hash : Bytes) → Bytes
poison_name hash = hash ++ codes ".poisoned"

unfoldable pub entry_paths : (dir file_path : FilePath) (hash : Bytes) → EntryPaths
unfolding body_name poison_name
entry_paths dir file_path hash = record {
  meta_path = file_path;
  body_path = join dir (body_name hash);
  poison_path = join dir (poison_name hash);
  hash = hash;
}

-- u8::is_ascii_hexdigit
unfoldable pub is_ascii_hexdigit : ℕ → Bool
is_ascii_hexdigit b =
    (leb b'0' b && leb b b'9') || (leb b'a' b && leb b b'f') || (leb b'A' b && leb b b'F')

unfoldable pub is_malformed : (hash : Bytes) → Bool
unfolding is_ascii_hexdigit
is_malformed hash = ltb (length hash) 5 || not (all is_ascii_hexdigit hash)

unfoldable pub scan_failure : (operation : String) → FilePath → IoError → EvictionScanError
unfolding eviction_io_error
scan_failure operation = eviction_io_error hash_dir_scan (codes operation)

module _ {W : Type 0} (fs : FileSystem W) (from_slice : Bytes → Option CacheMeta) where
  -- An orphan if no metadata file stands beside it.
  unfoldable pub probe_orphan :
      (dir : FilePath) (hash : Bytes)
      → DeferredCleanup
      → DirScanResult
      → W
      → Result EvictionScanError DirScanResult × W
  unfolding scan_failure meta_name defer
  probe_orphan dir hash orphan result w =
      let meta_path = join dir (meta_name hash) in
      let (r, w1) = fs.try_exists meta_path w in
      elim r [
        | ok false ↦ (ok (defer result orphan), w1)
        | ok true ↦ (ok result, w1)
        | err e ↦
            if is_not_found e
            then (ok result, w1)
            else (err (scan_failure "probe orphan metadata" meta_path e), w1)
      ]

  unfoldable pub measure_entry :
      (dir file_path : FilePath) (hash : Bytes) (meta_len : ℕ)
      → CacheMeta
      → DirScanResult
      → W
      → Result EvictionScanError DirScanResult × W
  unfolding scan_failure push_candidate entry_paths defer body_name
  measure_entry dir file_path hash meta_len meta result w =
      let body_path = join dir (body_name hash) in
      let (r, w1) = fs.metadata body_path w in
      elim r [
        | ok body_size ↦
            let candidate : EvictionCandidate = record {
              body_path = body_path;
              meta_path = file_path;
              hash = hash;
              fill_id = meta.fill_id;
              last_accessed_at = meta.last_accessed_at;
              size = body_size + meta_len;
            } in
            (ok (push_candidate result candidate), w1)
        | err e ↦
            if is_not_found e
            then (ok (defer result (missing_body (entry_paths dir file_path hash))), w1)
            else (err (scan_failure "stat body during eviction scan" body_path e), w1)
      ]

  unfoldable pub scan_meta :
      (dir file_path : FilePath) (hash : Bytes)
      → DirScanResult
      → W
      → Result EvictionScanError DirScanResult × W
  unfolding scan_failure measure_entry entry_paths defer is_malformed
  scan_meta dir file_path hash result w =
      let (r, w1) = fs.read file_path w in
      elim r [
        | err e ↦
            if is_not_found e
            then (ok result, w1)
            else (err (scan_failure "read metadata during eviction scan" file_path e), w1)
        | ok meta_bytes ↦ elim (from_slice meta_bytes) [
          | none ↦ (ok (defer result (corrupt_entry (entry_paths dir file_path hash))), w1)
          | some meta ↦
              if is_malformed hash
              then (ok (defer result (malformed_hash (entry_paths dir file_path hash))), w1)
              else measure_entry dir file_path hash (length meta_bytes) meta result w1
        ]
      ]

  -- One turn of the loop, with the name of the file.
  unfoldable pub scan_file :
      (dir file_path : FilePath) (file_name : Bytes)
      → DirScanResult
      → W
      → Result EvictionScanError DirScanResult × W
  unfolding scan_meta probe_orphan
  scan_file dir file_path file_name result w =
      let body_hash = trim_end_matches file_name (codes ".body") in
      let poison_hash = trim_end_matches file_name (codes ".poisoned") in
      let meta_hash = trim_end_matches file_name (codes ".meta.json") in
      if ends_with file_name (codes ".meta.json")
      then scan_meta dir file_path meta_hash result w
      else if ends_with file_name (codes ".body")
      then probe_orphan dir body_hash (orphan_body file_path body_hash) result w
      else if ends_with file_name (codes ".poisoned")
      then probe_orphan dir poison_hash (orphan_poison file_path poison_hash) result w
      else (ok result, w)

  unfoldable pub scan_entry :
      (dir : FilePath)
      → Result IoError DirEntry
      → DirScanResult
      → W
      → Result EvictionScanError DirScanResult × W
  unfolding scan_file scan_failure
  scan_entry dir (err e) result w = (err (scan_failure "iterate hash shard dir" dir e), w)
  scan_entry dir (ok entry) result w = elim entry.file_name [
    | none ↦
        let e : IoError = record {
          kind = invalid_data;
          message = codes "filename is not valid UTF-8";
        } in
        (err (scan_failure "non-UTF-8 filename inside cache hash shard" entry.path e), w)
    | some file_name ↦ scan_file dir entry.path file_name result w
  ]

  unfoldable pub scan_entries :
      (dir : FilePath)
      → List (Result IoError DirEntry)
      → DirScanResult
      → W
      → Result EvictionScanError DirScanResult × W
  unfolding scan_entry
  scan_entries dir [] result w = (ok result, w)
  scan_entries dir (entry ∷ entries) result w =
      attempt (scan_entry dir entry result w) λ result' w1. scan_entries dir entries result' w1

  unfoldable pub scan_hash_dir_for_eviction :
      FilePath → W → Result EvictionScanError DirScanResult × W
  unfolding scan_entries no_entries scan_failure
  scan_hash_dir_for_eviction dir w =
      let (r, w1) = fs.read_dir dir w in
      elim r [
        | ok entries ↦ scan_entries dir entries no_entries w1
        | err e ↦
            if is_not_found e
            then (ok no_entries, w1)
            else (err (scan_failure "read hash shard dir" dir e), w1)
      ]
