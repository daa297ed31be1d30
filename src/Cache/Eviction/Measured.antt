-- ===== src/Cache/Eviction/Measured.antt =====
-- A shard's scan measures its candidates (src/cache/eviction.rs).
use tiny_s3_proxy.Prelude.{
  List, Option, Result, [], arith, ℕ, ◌++◌, ◌∷◌, ◌≡◌, Bool-cases, Option-cases, Result-cases, inl,
  inr, length, err, ok, Ensures,
}
use tiny_s3_proxy.Text.{Bytes, codes}
use tiny_s3_proxy.Cache.FileSystem.{join, FilePath, FileSystem, trim_end_matches, DirEntry}
use tiny_s3_proxy.Cache.FileSystem.Lawful.{IsLawful}
use tiny_s3_proxy.Cache.Metadata.{CacheMeta}
use tiny_s3_proxy.Cache.Eviction.{
  DeferredCleanup, EvictionCandidate, EvictionScanError, orphan_body, orphan_poison, IoError,
  attempt,
}
use tiny_s3_proxy.Cache.Eviction.Budget.{Fits, Shrinks}
use tiny_s3_proxy.Cache.Eviction.Covered.{Fits-Shrinks}
use tiny_s3_proxy.Cache.Eviction.Shard.{
  DirScanResult, defer, measure_entry, probe_orphan, push_candidate, meta_name, body_name,
  scan_meta, scan_file, is_malformed, scan_entry, scan_entries, scan_hash_dir_for_eviction,
  no_entries,
}

module _ {W : Type 0} (bytes : FilePath → W → ℕ) where
  pub Fits-append :
      (cs ds : List EvictionCandidate) (w : W)
      → Fits bytes cs w
      → Fits bytes ds w
      → Fits bytes (cs ++ ds) w
  Fits-append [] ds w fits fits' = fits'
  Fits-append (c ∷ cs) ds w fits fits' = (fits.0, Fits-append cs ds w fits.1 fits')

module _ {W : Type 0} (fs : FileSystem W) (from_slice : Bytes → Option CacheMeta)
    {bytes : FilePath → W → ℕ} (lawful : IsLawful fs bytes) where
  -- The candidates fit into their sizes, and no file is changed.
  abbrev pub Measures : W → Result EvictionScanError DirScanResult × W → Type 0
  Measures w m = Ensures (λ r w'. Fits bytes r.candidates w') m × Shrinks bytes w m.1

  probe_orphan-Measures :
      (dir : FilePath) (hash : Bytes) (orphan : DeferredCleanup) (r : DirScanResult) (w : W)
      → Fits bytes r.candidates w
      → Measures w (probe_orphan fs from_slice dir hash orphan r w)
  unfolding probe_orphan defer
  probe_orphan-Measures dir hash orphan r w fits =
      let path = join dir (meta_name hash) in
      let w1 = (fs.try_exists path w).1 in
      let shrinks : Shrinks bytes w w1 = λ q. omega (arith, lawful.try_exists_keeps path q w) in
      let fits' = Fits-Shrinks bytes r.candidates w w1 shrinks fits in
      (ground (arith, fits'), λ q. ground (arith, shrinks q))

  measure_entry-Measures :
      (dir file_path : FilePath) (hash : Bytes) (n : ℕ) (meta : CacheMeta) (r : DirScanResult)
      (w : W)
      → bytes file_path w ≡ n
      → Fits bytes r.candidates w
      → Measures w (measure_entry fs from_slice dir file_path hash n meta r w)
  unfolding measure_entry defer push_candidate
  measure_entry-Measures dir file_path hash n meta r w is_n fits =
      let path = join dir (body_name hash) in
      let w1 = (fs.metadata path w).1 in
      let shrinks : Shrinks bytes w w1 = λ q. omega (arith, lawful.metadata_keeps path q w) in
      let fits' = Fits-Shrinks bytes r.candidates w w1 shrinks fits in
      let reports = lawful.metadata_reports path w in
      let body_kept = lawful.metadata_keeps path path w in
      let meta_kept = lawful.metadata_keeps path file_path w in
      (
        elim (Result-cases (fs.metadata path w).0) [
          | inr (size, e) ↦
              let size_eq = rw e at reports in
              rw (e, measure_entry)
                (Fits-append bytes r.candidates _ w1 fits'
                  (omega (arith, size_eq, body_kept, meta_kept, is_n), tt))
          | inl (e, failed) ↦ ground (arith, fits')
        ],
        λ q. ground (arith, shrinks q),
      )

  scan_meta-Measures :
      (dir file_path : FilePath) (hash : Bytes) (r : DirScanResult) (w : W)
      → Fits bytes r.candidates w
      → Measures w (scan_meta fs from_slice dir file_path hash r w)
  unfolding scan_meta defer
  scan_meta-Measures dir file_path hash r w fits =
      let w1 = (fs.read file_path w).1 in
      let shrinks : Shrinks bytes w w1 = λ q. omega (arith, lawful.read_keeps file_path q w) in
      let fits' = Fits-Shrinks bytes r.candidates w w1 shrinks fits in
      let reads = lawful.read_reads file_path w in
      let kept = lawful.read_keeps file_path file_path w in
      elim (Result-cases (fs.read file_path w).0) [
        | inl (e, failed) ↦ (ground (arith, fits'), λ q. ground (arith, shrinks q))
        | inr (text, e) ↦
            let size_eq = rw e at reads in
            let is_n : bytes file_path w1 ≡ length text = omega (arith, size_eq, kept) in
            let rest = λ (meta : CacheMeta).
              measure_entry-Measures dir file_path hash (length text) meta r w1 is_n fits' in
            elim (Option-cases (from_slice text)) [
              | inl corrupt ↦ rw (e, scan_meta, corrupt) (fits', shrinks)
              | inr (meta, parsed) ↦ elim (Bool-cases (is_malformed hash)) [
                | inl malformed ↦ rw (e, scan_meta, parsed, malformed) (fits', shrinks)
                | inr good ↦
                    rw (e, scan_meta, parsed, good)
                      ((rest meta).0, λ q. omega (arith, shrinks q, (rest meta).1 q))
              ]
            ]
      ]

  scan_file-Measures :
      (dir file_path : FilePath) (name : Bytes) (r : DirScanResult) (w : W)
      → Fits bytes r.candidates w
      → Measures w (scan_file fs from_slice dir file_path name r w)
  unfolding scan_file
  scan_file-Measures dir file_path name r w fits =
      let meta =
        scan_meta-Measures dir file_path (trim_end_matches name (codes ".meta.json")) r w fits in
      let hash = trim_end_matches name (codes ".body") in
      let hash' = trim_end_matches name (codes ".poisoned") in
      let body = probe_orphan-Measures dir hash (orphan_body file_path hash) r w fits in
      let poison = probe_orphan-Measures dir hash' (orphan_poison file_path hash') r w fits in
      (
        ground (arith, fits, meta.0, body.0, poison.0),
        λ q. ground (arith, meta.1 q, body.1 q, poison.1 q),
      )

  scan_entry-Measures :
      (dir : FilePath) (entry : Result IoError DirEntry) (r : DirScanResult) (w : W)
      → Fits bytes r.candidates w
      → Measures w (scan_entry fs from_slice dir entry r w)
  unfolding scan_entry
  scan_entry-Measures dir (err e) r w fits = (tt, λ q. omega arith)
  scan_entry-Measures dir (ok entry) r w fits = elim (Option-cases entry.file_name) [
    | inl foreign ↦ rw (foreign, scan_entry) (tt, λ q. omega arith)
    | inr (name, e) ↦ rw (e, scan_entry) (scan_file-Measures dir entry.path name r w fits)
  ]

  attempt-Measures :
      (w : W) (m : Result EvictionScanError DirScanResult × W)
      (next : DirScanResult → W → Result EvictionScanError DirScanResult × W)
      → Measures w m
      → ((r : DirScanResult) (w' : W) → Fits bytes r.candidates w' → Measures w' (next r w'))
      → Measures w (attempt m next)
  attempt-Measures w (err e, w1) next h rest = h
  attempt-Measures w (ok r, w1) next h rest =
      let (fits, shrinks) = rest r w1 h.0 in (fits, λ q. omega (arith, h.1 q, shrinks q))

  scan_entries-Measures :
      (dir : FilePath) (entries : List (Result IoError DirEntry)) (r : DirScanResult) (w : W)
      → Fits bytes r.candidates w
      → Measures w (scan_entries fs from_slice dir entries r w)
  unfolding scan_entries
  scan_entries-Measures dir [] r w fits = (fits, λ q. omega arith)
  scan_entries-Measures dir (entry ∷ entries) r w fits =
      attempt-Measures w (scan_entry fs from_slice dir entry r w) _
        (scan_entry-Measures dir entry r w fits)
        (λ r' w' fits'. scan_entries-Measures dir entries r' w' fits')

  pub scan_hash_dir_for_eviction-Measures :
      (dir : FilePath) (w : W) → Measures w (scan_hash_dir_for_eviction fs from_slice dir w)
  unfolding scan_hash_dir_for_eviction no_entries
  scan_hash_dir_for_eviction-Measures dir w =
      let (listed, w1) = fs.read_dir dir w in
      let shrinks : Shrinks bytes w w1 = λ q. omega (arith, lawful.read_dir_keeps dir q w) in
      elim (Result-cases listed) [
        | inr (entries, e) ↦
            let (fits, shrinks') = scan_entries-Measures dir entries no_entries w1 tt in
            rw (e, scan_hash_dir_for_eviction) (fits, λ q. omega (arith, shrinks q, shrinks' q))
        | inl (e, failed) ↦ (ground arith, λ q. ground (arith, shrinks q))
      ]
