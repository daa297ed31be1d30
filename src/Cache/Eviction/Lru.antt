-- ===== src/Cache/Eviction/Lru.antt =====
-- The order of the evictions of a pass (src/cache/eviction.rs).
use tiny_s3_proxy.Prelude.{
  All, Bool-cases, List, [], arith, inl, inr, leb, refl, ℕ, ◌++◌, ◌<◌, ◌∷◌, ◌≡◌, ◌≤◌, Option, ap,
  leb→le, ltb, ltb→le, ◌⊎◌,
}
use mathlib.Core.List.{Perm}
use mathlib.Core.List.Perm
use tiny_s3_proxy.Cache.Eviction.Collect.{ScanResult}
use tiny_s3_proxy.Cache.Stats.{CacheStats}
use tiny_s3_proxy.Text.{Bytes, split}
use tiny_s3_proxy.Cache.FileSystem.{FileSystem}
use tiny_s3_proxy.Cache.Metadata.{CacheMeta}
use tiny_s3_proxy.Cache.Eviction.{EvictionCandidate}
use tiny_s3_proxy.Cache.Eviction.Candidate.{Budget, try_evict_candidate}
use tiny_s3_proxy.Cache.Eviction.Pass.{
  evict_loop, evict_over_budget, insert_by_access, sort_by_access,
}

-- No candidate of the list was accessed before `c`.
abbrev pub OldestOf : EvictionCandidate → List EvictionCandidate → Type 0
OldestOf c cs = All (λ d. c.last_accessed_at ≤ d.last_accessed_at) cs

abbrev pub IsSorted : List EvictionCandidate → Type 0
IsSorted [] = Unit
IsSorted (c ∷ cs) = OldestOf c cs × IsSorted cs

OldestOf-insert_by_access :
    (c d : EvictionCandidate) (ds : List EvictionCandidate)
    → c.last_accessed_at ≤ d.last_accessed_at
    → OldestOf c ds
    → OldestOf c (insert_by_access d ds)
unfolding insert_by_access
OldestOf-insert_by_access c d [] le oldest = (le, tt)
OldestOf-insert_by_access c d (e ∷ es) le oldest =
    ground (arith, OldestOf-insert_by_access c d es le oldest.1)

OldestOf-le :
    (c d : EvictionCandidate) (ds : List EvictionCandidate)
    → c.last_accessed_at ≤ d.last_accessed_at
    → OldestOf d ds
    → OldestOf c ds
OldestOf-le c d [] le oldest = tt
OldestOf-le c d (e ∷ es) le oldest = (omega arith, OldestOf-le c d es le oldest.1)

insert_by_access-IsSorted :
    (c : EvictionCandidate) (cs : List EvictionCandidate)
    → IsSorted cs
    → IsSorted (insert_by_access c cs)
unfolding insert_by_access
insert_by_access-IsSorted c [] sorted = (tt, tt)
insert_by_access-IsSorted c (d ∷ ds) sorted = ground (
  arith,
  OldestOf-le c d ds,
  OldestOf-insert_by_access d c ds,
  insert_by_access-IsSorted c ds sorted.1,
)

pub sort_by_access-IsSorted : (cs : List EvictionCandidate) → IsSorted (sort_by_access cs)
unfolding sort_by_access
sort_by_access-IsSorted [] = tt
sort_by_access-IsSorted (c ∷ cs) =
    insert_by_access-IsSorted c (sort_by_access cs) (sort_by_access-IsSorted cs)

insert_by_access-perm :
    (c : EvictionCandidate) (cs : List EvictionCandidate) → Perm (insert_by_access c cs) (c ∷ cs)
unfolding insert_by_access
insert_by_access-perm c [] = Perm.refl (c ∷ [])
insert_by_access-perm c (d ∷ ds) = elim (Bool-cases (leb c.last_accessed_at d.last_accessed_at)) [
  | inl before ↦ rw (before, insert_by_access) (Perm.refl (c ∷ d ∷ ds))
  | inr after ↦
      rw (after, insert_by_access)
        (Perm.trans (Perm.cons d (insert_by_access-perm c ds)) (Perm.swap c d ds))
]

pub sort_by_access-perm : (cs : List EvictionCandidate) → Perm (sort_by_access cs) cs
unfolding sort_by_access
sort_by_access-perm [] = Perm.refl []
sort_by_access-perm (c ∷ cs) =
    Perm.trans (insert_by_access-perm c (sort_by_access cs)) (Perm.cons c (sort_by_access-perm cs))

OldestOf-append :
    (c : EvictionCandidate) (tried kept : List EvictionCandidate)
    → OldestOf c (tried ++ kept)
    → OldestOf c kept
OldestOf-append c [] kept oldest = oldest
OldestOf-append c (d ∷ ds) kept oldest = OldestOf-append c ds kept oldest.1

-- The first part of a sorted list holds nothing that was accessed after the second part.
pub IsSorted-append :
    (tried kept : List EvictionCandidate)
    → IsSorted (tried ++ kept)
    → All (λ t. OldestOf t kept) tried
IsSorted-append [] kept sorted = tt
IsSorted-append (c ∷ cs) kept sorted =
    (OldestOf-append c cs kept sorted.0, IsSorted-append cs kept sorted.1)

module _ {W : Type 0} (fs : FileSystem W) (from_slice : Bytes → Option CacheMeta) (top : ℕ) where
  -- A run of evictions: each is made because the budget is exceeded, and the run ends when it is
  -- not, or when no candidate is left. The last index is where it ends, with what it has kept.
  pub data Run : (tried kept : List EvictionCandidate) → Budget → W → Budget → W → Type 0 where
    within :
        {kept : List EvictionCandidate} {b : Budget} {w : W}
        → b.current_size ≤ top
        → Run [] kept b w b w
    used_up : {b : Budget} {w : W} → Run [] [] b w b w
    evict :
        {c : EvictionCandidate} {tried kept : List EvictionCandidate} {b b' : Budget} {w w' : W}
        → top < b.current_size
        → Run tried kept
            (try_evict_candidate fs from_slice c b w).0
            (try_evict_candidate fs from_slice c b w).1
            b'
            w'
        → Run (c ∷ tried) kept b w b' w'

  -- The loop is a run over its candidates, in their order.
  pub evict_loop-Run :
      (cs : List EvictionCandidate) (b : Budget) (w : W)
      → (tried : List EvictionCandidate) × (kept : List EvictionCandidate) × (cs ≡ tried ++ kept)
        × Run tried kept b w
            (evict_loop fs from_slice top cs b w).0
            (evict_loop fs from_slice top cs b w).1
  unfolding evict_loop
  evict_loop-Run [] b w = ([], [], refl, used_up)
  evict_loop-Run (c ∷ cs) b w = elim (Bool-cases (leb b.current_size top)) [
    | inl enough ↦ ([], c ∷ cs, refl, rw (enough, evict_loop) (within (leb→le _ _ enough)))
    | inr over ↦
        let (b', w1) = try_evict_candidate fs from_slice c b w in
        let (tried, kept, split, run) = evict_loop-Run cs b' w1 in
        (c ∷ tried, kept, ap (λ l. c ∷ l) split, rw (over, evict_loop) (evict (ground arith) run))
  ]

  -- What a run leaves undone, it leaves undone because the cache is within its budget.
  pub Run-enough :
      {tried kept : List EvictionCandidate} {b b' : Budget} {w w' : W}
      → Run tried kept b w b' w'
      → (kept ≡ []) ⊎ (b'.current_size ≤ top)
  Run-enough (within le) = inr le
  Run-enough used_up = inl refl
  Run-enough (evict over run) = Run-enough run

  -- What a pass does after its scan.
  pub record Evicts (scan : ScanResult) (stats : CacheStats) (w : W) (last : Budget × W)
      : Type 0 where
    pub tried : List EvictionCandidate
    pub kept : List EvictionCandidate
    pub end : Budget
    pub all : Perm (tried ++ kept) scan.candidates
    pub oldest_first : All (λ t. OldestOf t kept) tried
    pub run :
        Run tried kept
          (record { current_size = scan.total_bytes; evicted = 0; stats = stats })
          w
          end
          last.1
    pub size : last.0.current_size ≡ end.current_size
    pub evicted : last.0.evicted ≡ end.evicted

  -- One by one.
  pub evict_over_budget-Evicts :
      (scan : ScanResult) (stats : CacheStats) (w : W)
      → Evicts scan stats w (evict_over_budget fs from_slice top scan stats w)
  unfolding evict_over_budget
  evict_over_budget-Evicts scan stats w =
      let sorted = sort_by_access scan.candidates in
      let start : Budget = record { current_size = scan.total_bytes; evicted = 0; stats = stats } in
      let (tried, kept, split, run) = evict_loop-Run sorted start w in
      elim (Bool-cases (ltb top scan.total_bytes)) [
        | inl over ↦
            rw (over, evict_over_budget)
              (record {
                tried = tried;
                kept = kept;
                end = (evict_loop fs from_slice top sorted start w).0;
                all = rw (← split) (sort_by_access-perm scan.candidates);
                oldest_first =
                    IsSorted-append tried kept
                      (rw (← split) (sort_by_access-IsSorted scan.candidates));
                run = run;
                size = refl;
                evicted = refl;
              })
        | inr enough ↦
            rw (enough, evict_over_budget)
              (record {
                tried = [];
                kept = sorted;
                end = start;
                all = sort_by_access-perm scan.candidates;
                oldest_first = tt;
                run = within (ltb→le _ _ enough);
                size = refl;
                evicted = refl;
              })
      ]
