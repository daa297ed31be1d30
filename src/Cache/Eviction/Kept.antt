-- ===== src/Cache/Eviction/Kept.antt =====
-- What the eviction of a candidate deletes, and what it keeps (src/cache/eviction.rs).
use tiny_s3_proxy.Prelude.{
  Option, Result, arith, err, false, ok, some, true, ℕ, ◌+◌, ◌≡◌, Bool, ◌||◌, ◌≢◌,
}
use tiny_s3_proxy.Text.{Bytes}
use tiny_s3_proxy.Cache.FileSystem.{FilePath, FileSystem, IoError, is_not_found}
use tiny_s3_proxy.Cache.FileSystem.Lawful.{IsLawful}
use tiny_s3_proxy.Cache.Metadata.{CacheMeta}
use tiny_s3_proxy.Cache.Eviction.{EvictionCandidate}
use tiny_s3_proxy.Cache.Eviction.Candidate.{
  Budget, clear_poison, count_evicted, delete_candidate, identity_changed, is_gone,
  remeasure_changed, remeasured, settle, try_evict_candidate,
}
use tiny_s3_proxy.Cache.Eviction.Budget.{clear_poison-Shrinks, settle-Shrinks, is_gone-Gone}

module _ (from_slice : Bytes → Option CacheMeta) where
  -- The metadata names another fill or another access than the scan saw, or cannot be read.
  abbrev pub IsForeign : EvictionCandidate → Result IoError Bytes → Type 0
  IsForeign c (ok text) =
      (meta : CacheMeta) × (from_slice text ≡ some meta) × (identity_changed c meta ≡ true)
  IsForeign c (err e) = is_not_found e ≡ false

module _ {W : Type 0} (fs : FileSystem W) (from_slice : Bytes → Option CacheMeta)
    {bytes : FilePath → W → ℕ} (lawful : IsLawful fs bytes) where
  -- Such an entry keeps its files.
  pub try_evict_candidate_keeps :
      (c : EvictionCandidate) (b : Budget) (w : W)
      → IsForeign from_slice c (fs.read c.meta_path w).0
      → let (b', w') = try_evict_candidate fs from_slice c b w in
        ((q : FilePath) → bytes q w' ≡ bytes q w) × (b'.evicted ≡ b.evicted) × (b'.stats ≡ b.stats)
  unfolding try_evict_candidate remeasure_changed remeasured
  try_evict_candidate_keeps c b w foreign =
      let w1 = (fs.read c.meta_path w).1 in
      let w2 = (fs.metadata c.body_path w1).1 in
      (
        λ q. ground (
          arith,
          foreign,
          lawful.read_keeps c.meta_path q w,
          lawful.metadata_keeps c.body_path q w1,
          lawful.metadata_keeps c.meta_path q w2,
        ),
        ground arith,
        ground arith,
      )

  settle-off_disk :
      (c : EvictionCandidate) (body_gone meta_gone : Bool) (b : Budget) (w : W)
      → (settle fs c body_gone meta_gone b w).0.evicted ≢ b.evicted
      → (body_gone ≡ true)
        × (meta_gone ≡ true)
        × ((settle fs c body_gone meta_gone b w).0.evicted ≡ b.evicted + 1)
  unfolding settle remeasured count_evicted
  settle-off_disk c body_gone meta_gone b w h = ground arith

  delete_candidate-off_disk :
      (c : EvictionCandidate) (b : Budget) (w : W)
      → (delete_candidate fs c b w).0.evicted ≢ b.evicted
      → let (b', w') = delete_candidate fs c b w in
        (b'.evicted ≡ b.evicted + 1) × (bytes c.body_path w' ≡ 0) × (bytes c.meta_path w' ≡ 0)
  unfolding delete_candidate
  delete_candidate-off_disk c b w h =
      let (body_res, w1) = fs.remove_file c.body_path w in
      let (meta_res, w2) = fs.remove_file c.meta_path w1 in
      let either = is_gone body_res || is_gone meta_res in
      let w3 = clear_poison fs c either w2 in
      let gone = settle-off_disk c (is_gone body_res) (is_gone meta_res) b w3 h in
      let no_body = is_gone-Gone fs lawful c.body_path w gone.0 in
      let no_meta = is_gone-Gone fs lawful c.meta_path w1 gone.1 in
      let settled = settle-Shrinks fs lawful c (is_gone body_res) (is_gone meta_res) b w3 in
      let cleared = clear_poison-Shrinks fs lawful c either w2 in
      (
        gone.2,
        omega (
          arith,
          settled c.body_path,
          cleared c.body_path,
          lawful.remove_le c.meta_path c.body_path w1,
        ),
        omega (arith, settled c.meta_path, cleared c.meta_path),
      )

  -- What is counted as evicted is off the disk.
  pub try_evict_candidate-off_disk :
      (c : EvictionCandidate) (b : Budget) (w : W)
      → (try_evict_candidate fs from_slice c b w).0.evicted ≢ b.evicted
      → let (b', w') = try_evict_candidate fs from_slice c b w in
        (b'.evicted ≡ b.evicted + 1) × (bytes c.body_path w' ≡ 0) × (bytes c.meta_path w' ≡ 0)
  unfolding try_evict_candidate remeasure_changed remeasured
  try_evict_candidate-off_disk c b w h =
      ground (arith, delete_candidate-off_disk c b (fs.read c.meta_path w).1)
