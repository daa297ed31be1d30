-- ===== src/Cache/Eviction/Budget.antt =====
-- The budget of an eviction pass covers what is on the disk (src/cache/eviction.rs).
use tiny_s3_proxy.Prelude.{
  ◌+◌, ◌≤◌, ℕ, arith, ◌<◌, ◌^◌, List, [], ◌∷◌, Bool, false, true, ◌||◌, ◌≡◌,
}
use tiny_s3_proxy.Cache.FileSystem.{FilePath, FileSystem}
use tiny_s3_proxy.Cache.FileSystem.Lawful.{IsLawful}
use tiny_s3_proxy.Cache.Eviction.{EvictionCandidate, remaining_bytes_after_failed_remove}
use tiny_s3_proxy.Cache.Eviction.Candidate.{
  Budget, remeasure_changed, remeasured, settle, clear_poison, is_gone, delete_candidate,
  count_evicted,
}

module _ {W : Type 0} (bytes : FilePath → W → ℕ) where
  -- The bytes of a candidate's two files.
  abbrev pub left : EvictionCandidate → W → ℕ
  left c w = bytes c.body_path w + bytes c.meta_path w

  unfoldable pub sum_left : List EvictionCandidate → W → ℕ
  sum_left [] w = 0
  sum_left (c ∷ cs) w = left c w + sum_left cs w

  -- No candidate has more on the disk than its size says.
  abbrev pub Fits : List EvictionCandidate → W → Type 0
  Fits [] w = Unit
  Fits (c ∷ cs) w = (left c w ≤ c.size) × Fits cs w

  -- No file is larger in the second world.
  abbrev pub Shrinks : W → W → Type 0
  Shrinks w w' = (q : FilePath) → bytes q w' ≤ bytes q w

  -- What one candidate takes off the budget is off the disk.
  abbrev pub Covers : EvictionCandidate → Budget → Budget → W → Type 0
  Covers c budget budget' w' =
      (budget.current_size + left c w' ≤ budget'.current_size + c.size)
      × (budget'.current_size ≤ budget.current_size)

module _ {W : Type 0} (fs : FileSystem W) {bytes : FilePath → W → ℕ}
    (lawful : IsLawful fs bytes) where
  -- What the steps of an eviction need to know of the budget before them.
  pub record Ready (c : EvictionCandidate) (b : Budget) (w : W) : Type 0 where
    pub fits : left bytes c w ≤ c.size
    pub covered : c.size ≤ b.current_size
    pub small : b.current_size < 2 ^ 64

  pub remeasure_changed-Covers :
      (c : EvictionCandidate) (b : Budget) (w : W)
      → Ready c b w
      → let (b', w') = remeasure_changed fs c b w in Covers bytes c b b' w'
  unfolding remeasure_changed remeasured
  remeasure_changed-Covers c b w ready =
      let w1 = (fs.metadata c.body_path w).1 in
      ground (
        arith,
        lawful.metadata_reports c.body_path w,
        lawful.metadata_reports c.meta_path w1,
        lawful.metadata_keeps c.body_path c.body_path w,
        lawful.metadata_keeps c.body_path c.meta_path w,
        lawful.metadata_keeps c.meta_path c.body_path w1,
        lawful.metadata_keeps c.meta_path c.meta_path w1,
      )

  -- What is known of a file that is gone, or may not be.
  abbrev Gone : Bool → ℕ → Type 0
  Gone gone n = gone ≡ true → n ≡ 0

  settle-Covers :
      (c : EvictionCandidate) (body_gone meta_gone : Bool) (b : Budget) (w : W)
      → Gone body_gone (bytes c.body_path w)
      → Gone meta_gone (bytes c.meta_path w)
      → Ready c b w
      → let (b', w') = settle fs c body_gone meta_gone b w in Covers bytes c b b' w'
  unfolding settle remeasured count_evicted remaining_bytes_after_failed_remove
  settle-Covers c true true b w no_body no_meta ready = ground arith
  settle-Covers c true false b w no_body no_meta ready = ground (
    arith,
    lawful.metadata_reports c.meta_path w,
    lawful.metadata_keeps c.meta_path c.body_path w,
    lawful.metadata_keeps c.meta_path c.meta_path w,
  )
  settle-Covers c false true b w no_body no_meta ready = ground (
    arith,
    lawful.metadata_reports c.body_path w,
    lawful.metadata_keeps c.body_path c.body_path w,
    lawful.metadata_keeps c.body_path c.meta_path w,
  )
  settle-Covers c false false b w no_body no_meta ready =
      let w1 = (fs.metadata c.body_path w).1 in
      ground (
        arith,
        lawful.metadata_reports c.body_path w,
        lawful.metadata_reports c.meta_path w1,
        lawful.metadata_keeps c.body_path c.body_path w,
        lawful.metadata_keeps c.body_path c.meta_path w,
        lawful.metadata_keeps c.meta_path c.body_path w1,
        lawful.metadata_keeps c.meta_path c.meta_path w1,
      )

  pub settle-Shrinks :
      (c : EvictionCandidate) (body_gone meta_gone : Bool) (b : Budget) (w : W)
      → Shrinks bytes w (settle fs c body_gone meta_gone b w).1
  unfolding settle remaining_bytes_after_failed_remove
  settle-Shrinks c body_gone meta_gone b w q =
      let w1 = (fs.metadata c.body_path w).1 in
      ground (
        arith,
        lawful.metadata_keeps c.body_path q w,
        lawful.metadata_keeps c.meta_path q w1,
        lawful.metadata_keeps c.meta_path q w,
      )

  pub clear_poison-Shrinks :
      (c : EvictionCandidate) (either_gone : Bool) (w : W)
      → Shrinks bytes w (clear_poison fs c either_gone w)
  unfolding clear_poison
  clear_poison-Shrinks c true w q = lawful.remove_le _ q w
  clear_poison-Shrinks c false w q = omega arith

  -- A removal, as the code reads its result.
  pub is_gone-Gone :
      (p : FilePath) (w : W)
      → Gone (is_gone (fs.remove_file p w).0) (bytes p (fs.remove_file p w).1)
  unfolding is_gone
  is_gone-Gone p w gone = ground (arith, lawful.remove_empties p w)

  pub delete_candidate-Shrinks :
      (c : EvictionCandidate) (b : Budget) (w : W) → Shrinks bytes w (delete_candidate fs c b w).1
  unfolding delete_candidate
  delete_candidate-Shrinks c b w q =
      let (body_res, w1) = fs.remove_file c.body_path w in
      let (meta_res, w2) = fs.remove_file c.meta_path w1 in
      let either = is_gone body_res || is_gone meta_res in
      omega (
        arith,
        settle-Shrinks c (is_gone body_res) (is_gone meta_res) b (clear_poison fs c either w2) q,
        clear_poison-Shrinks c either w2 q,
        lawful.remove_le c.meta_path q w1,
        lawful.remove_le c.body_path q w,
      )

  pub delete_candidate-Covers :
      (c : EvictionCandidate) (b : Budget) (w : W)
      → Ready c b w
      → let (b', w') = delete_candidate fs c b w in Covers bytes c b b' w'
  unfolding delete_candidate
  delete_candidate-Covers c b w ready =
      let (body_res, w1) = fs.remove_file c.body_path w in
      let (meta_res, w2) = fs.remove_file c.meta_path w1 in
      let either = is_gone body_res || is_gone meta_res in
      let w3 = clear_poison fs c either w2 in
      let body_le = clear_poison-Shrinks c either w2 c.body_path in
      let meta_le = clear_poison-Shrinks c either w2 c.meta_path in
      let body_le' = lawful.remove_le c.meta_path c.body_path w1 in
      let meta_le' = lawful.remove_le c.body_path c.meta_path w in
      let body_le'' = lawful.remove_le c.body_path c.body_path w in
      let meta_le'' = lawful.remove_le c.meta_path c.meta_path w1 in
      settle-Covers c (is_gone body_res) (is_gone meta_res) b w3
        (λ gone. omega (arith, is_gone-Gone c.body_path w gone, body_le, body_le'))
        (λ gone. omega (arith, is_gone-Gone c.meta_path w1 gone, meta_le))
        (record {
          fits =
              omega (arith, ready.fits, body_le, meta_le, body_le', meta_le', body_le'', meta_le'');
          covered = ready.covered;
          small = ready.small;
        })
