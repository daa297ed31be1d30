-- ===== src/Cache/Eviction/Covered.antt =====
-- The eviction loop never takes more off its budget than it takes off the disk
-- (src/cache/eviction.rs).
use tiny_s3_proxy.Prelude.{
  List, arith, ℕ, ◌+◌, ◌<◌, ◌^◌, ◌∷◌, ◌≡◌, ◌≤◌, [], Option, refl, Bool-cases, inl, inr, leb,
}
use tiny_s3_proxy.Text.{Bytes}
use tiny_s3_proxy.Cache.FileSystem.{FilePath, FileSystem}
use tiny_s3_proxy.Cache.FileSystem.Lawful.{IsLawful}
use tiny_s3_proxy.Cache.Metadata.{CacheMeta}
use tiny_s3_proxy.Cache.Eviction.{EvictionCandidate}
use tiny_s3_proxy.Cache.Eviction.Candidate.{Budget, remeasure_changed, try_evict_candidate}
use tiny_s3_proxy.Cache.Eviction.Pass.{
  evict_loop, evict_over_budget, insert_by_access, sort_by_access, sum_sizes,
}
use tiny_s3_proxy.Cache.Eviction.Collect.{ScanResult}
use tiny_s3_proxy.Cache.Stats.{CacheStats}
use tiny_s3_proxy.Cache.Eviction.Budget.{
  Covers, Fits, Ready, Shrinks, delete_candidate-Covers, delete_candidate-Shrinks, left,
  remeasure_changed-Covers, sum_left,
}

module _ {W : Type 0} (bytes : FilePath → W → ℕ) where
  pub Fits-Shrinks :
      (cs : List EvictionCandidate) (w w' : W)
      → Shrinks bytes w w'
      → Fits bytes cs w
      → Fits bytes cs w'
  Fits-Shrinks [] w w' shrinks fits = tt
  Fits-Shrinks (c ∷ cs) w w' shrinks fits = (
    omega (arith, shrinks c.body_path, shrinks c.meta_path, fits.0),
    Fits-Shrinks cs w w' shrinks fits.1,
  )

  Fits-le :
      (cs : List EvictionCandidate) (w : W) → Fits bytes cs w → sum_left bytes cs w ≤ sum_sizes cs
  unfolding sum_left sum_sizes
  Fits-le [] w fits = omega arith
  Fits-le (c ∷ cs) w fits = omega (arith, fits.0, Fits-le cs w fits.1)

  insert_by_access-Fits :
      (c : EvictionCandidate) (cs : List EvictionCandidate) (w : W)
      → Fits bytes (c ∷ cs) w
      → Fits bytes (insert_by_access c cs) w
  unfolding insert_by_access
  insert_by_access-Fits c [] w fits = fits
  insert_by_access-Fits c (d ∷ ds) w fits =
      ground (arith, insert_by_access-Fits c ds w (fits.0, fits.1.1))

  pub sort_by_access-Fits :
      (cs : List EvictionCandidate) (w : W) → Fits bytes cs w → Fits bytes (sort_by_access cs) w
  unfolding sort_by_access
  sort_by_access-Fits [] w fits = tt
  sort_by_access-Fits (c ∷ cs) w fits =
      insert_by_access-Fits c (sort_by_access cs) w (fits.0, sort_by_access-Fits cs w fits.1)

  insert_by_access-sums :
      (c : EvictionCandidate) (cs : List EvictionCandidate) (w : W)
      → (sum_sizes (insert_by_access c cs) ≡ c.size + sum_sizes cs)
        × (sum_left bytes (insert_by_access c cs) w ≡ left bytes c w + sum_left bytes cs w)
  unfolding insert_by_access sum_sizes sum_left
  insert_by_access-sums c [] w = ground arith
  insert_by_access-sums c (d ∷ ds) w = ground (arith, insert_by_access-sums c ds w)

  pub sort_by_access-sums :
      (cs : List EvictionCandidate) (w : W)
      → (sum_sizes (sort_by_access cs) ≡ sum_sizes cs)
        × (sum_left bytes (sort_by_access cs) w ≡ sum_left bytes cs w)
  unfolding sort_by_access sum_sizes sum_left
  sort_by_access-sums [] w = (refl, refl)
  sort_by_access-sums (c ∷ cs) w =
      ground (arith, insert_by_access-sums c (sort_by_access cs) w, sort_by_access-sums cs w)

module _ {W : Type 0} (fs : FileSystem W) (from_slice : Bytes → Option CacheMeta)
    {bytes : FilePath → W → ℕ} (lawful : IsLawful fs bytes) where
  pub try_evict_candidate-Shrinks :
      (c : EvictionCandidate) (b : Budget) (w : W)
      → Shrinks bytes w (try_evict_candidate fs from_slice c b w).1
  unfolding try_evict_candidate remeasure_changed
  try_evict_candidate-Shrinks c b w q =
      let w1 = (fs.read c.meta_path w).1 in
      let w2 = (fs.metadata c.body_path w1).1 in
      ground (
        arith,
        lawful.read_keeps c.meta_path q w,
        lawful.metadata_keeps c.body_path q w1,
        lawful.metadata_keeps c.meta_path q w2,
        delete_candidate-Shrinks fs lawful c b w1 q,
      )

  try_evict_candidate-Covers :
      (c : EvictionCandidate) (b : Budget) (w : W)
      → Ready fs lawful c b w
      → let (b', w') = try_evict_candidate fs from_slice c b w in Covers bytes c b b' w'
  unfolding try_evict_candidate
  try_evict_candidate-Covers c b w ready =
      let w1 = (fs.read c.meta_path w).1 in
      let body_kept = lawful.read_keeps c.meta_path c.body_path w in
      let meta_kept = lawful.read_keeps c.meta_path c.meta_path w in
      let ready' : Ready fs lawful c b w1 = record {
        fits = omega (arith, ready.fits, body_kept, meta_kept);
        covered = ready.covered;
        small = ready.small;
      } in
      ground (
        arith,
        body_kept,
        meta_kept,
        remeasure_changed-Covers fs lawful c b w1 ready',
        delete_candidate-Covers fs lawful c b w1 ready',
      )

  pub evict_loop-Shrinks :
      (top : ℕ) (cs : List EvictionCandidate) (b : Budget) (w : W)
      → Shrinks bytes w (evict_loop fs from_slice top cs b w).1
  unfolding evict_loop
  evict_loop-Shrinks top [] b w q = omega arith
  evict_loop-Shrinks top (c ∷ cs) b w q =
      let (b', w1) = try_evict_candidate fs from_slice c b w in
      ground (arith, evict_loop-Shrinks top cs b' w1 q, try_evict_candidate-Shrinks c b w q)

  -- What the loop has taken off the budget is off the disk.
  pub evict_loop-covers :
      (top : ℕ) (cs : List EvictionCandidate) (b : Budget) (w : W)
      → Fits bytes cs w
      → sum_sizes cs ≤ b.current_size
      → b.current_size < 2 ^ 64
      → let (b', w') = evict_loop fs from_slice top cs b w in
        b.current_size + sum_left bytes cs w' ≤ b'.current_size + sum_sizes cs
  unfolding evict_loop sum_sizes sum_left
  evict_loop-covers top [] b w fits covered small = omega arith
  evict_loop-covers top (c ∷ cs) b w fits covered small =
      let (b', w1) = try_evict_candidate fs from_slice c b w in
      let ready : Ready fs lawful c b w = record {
        fits = fits.0;
        covered = omega arith;
        small = small;
      } in
      let step = try_evict_candidate-Covers c b w ready in
      let kept = Fits-Shrinks bytes cs w w1 (try_evict_candidate-Shrinks c b w) fits.1 in
      let rest = evict_loop-covers top cs b' w1 kept (omega arith) (omega arith) in
      let w' = (evict_loop fs from_slice top cs b' w1).1 in
      let body_le = evict_loop-Shrinks top cs b' w1 c.body_path in
      let meta_le = evict_loop-Shrinks top cs b' w1 c.meta_path in
      let fitting = Fits-le bytes cs w fits.1 in
      elim (Bool-cases (leb b.current_size top)) [
        | inl within ↦ rw (within, evict_loop) (omega arith)
        | inr over ↦ rw (over, evict_loop) (omega (arith, step, rest, body_le, meta_le))
      ]

  -- The same of the whole eviction.
  pub evict_over_budget-covers :
      (top : ℕ) (scan : ScanResult) (stats : CacheStats) (w : W)
      → Fits bytes scan.candidates w
      → sum_sizes scan.candidates ≤ scan.total_bytes
      → scan.total_bytes < 2 ^ 64
      → let (b', w') = evict_over_budget fs from_slice top scan stats w in
        scan.total_bytes + sum_left bytes scan.candidates w'
        ≤ b'.current_size + sum_sizes scan.candidates
  unfolding evict_over_budget
  evict_over_budget-covers top scan stats w fits covered small =
      let sorted = sort_by_access scan.candidates in
      let start : Budget = record { current_size = scan.total_bytes; evicted = 0; stats = stats } in
      let w' = (evict_loop fs from_slice top sorted start w).1 in
      let sums = sort_by_access-sums bytes scan.candidates w' in
      let done =
        evict_loop-covers top sorted start w (sort_by_access-Fits bytes scan.candidates w fits)
          (omega arith) small in
      let fitting = Fits-le bytes scan.candidates w fits in ground (arith, sums, done, fitting)
