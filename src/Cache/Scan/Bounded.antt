-- ===== src/Cache/Scan/Bounded.antt =====
-- How many shard tasks are alive, and what a scan has done when it ends (src/cache/scan.rs).
use tiny_s3_proxy.Prelude.{
  List, [], arith, drop, err, length, ok, suc, zero, ℕ, ◌++◌, ◌+◌, ◌∷◌, ◌≡◌, ◌≤◌, length-drop,
  length-take, refl, ◌⊎◌, all, ap, inl, length-append, Ensures, ok_injective, ◌<◌, List-cases,
  Result-cases, inr, Ensures-at,
}
use tiny_s3_proxy.Text.{Bytes}
use tiny_s3_proxy.Cache.FileSystem.{FilePath}
use tiny_s3_proxy.Cache.Scan.{
  Joined, Pump, bounded_parallel_scan, choice, finished, join_error, joined, pick, pump_loop,
  spawn_first, top_up, absorb,
}

pub length-pick :
    (i : ℕ) (path : FilePath) (paths : List FilePath) → length (pick i path paths).1 ≡ length paths
unfolding pick
length-pick zero path paths = refl
length-pick (suc i) path [] = refl
length-pick (suc i) path (next ∷ paths) = omega (arith, length-pick i next paths)

-- At most `cap` tasks are alive, and fewer only when no path waits; the tasks that are alive, the
-- paths that wait and the results are `total` together.
pub record IsBounded {T : Type 0} (cap total : ℕ) (pump : Pump T) : Type 0 where
  pub bounded : length pump.live ≤ cap
  pub busy : length pump.waiting ≡ 0 ⊎ (length pump.live ≡ cap)
  pub complete : length pump.live + length pump.waiting + length pump.results ≡ total

module _ {T : Type 0} where
  pub spawn_first-IsBounded :
      (cap : ℕ) (paths : List FilePath)
      → IsBounded cap (length paths) (spawn_first {T = T} cap paths)
  unfolding spawn_first
  spawn_first-IsBounded cap paths = record {
    bounded = omega (arith, length-take cap paths);
    busy = ground (arith, length-take cap paths, length-drop cap paths);
    complete = omega (arith, length-take cap paths, length-drop cap paths);
  }

  top_up-IsBounded :
      (cap total : ℕ) (live waiting : List FilePath) (results : List T) (value : T)
      → length live + 1 ≤ cap
      → (length waiting ≡ 0) ⊎ (length live + 1 ≡ cap)
      → length live + 1 + length waiting + length results ≡ total
      → IsBounded cap total (top_up live waiting (results ++ value ∷ []))
  unfolding top_up
  top_up-IsBounded cap total live [] results value fewer busy all = record {
    bounded = omega arith;
    busy = inl refl;
    complete = omega (arith, length-append results (value ∷ []));
  }
  top_up-IsBounded cap total live (path ∷ waiting) results value fewer busy all = record {
    bounded = omega (arith, length-append live (path ∷ []));
    busy = ground (arith, length-append live (path ∷ []));
    complete = omega (arith, length-append live (path ∷ []), length-append results (value ∷ []));
  }

length-top_up :
    {T : Type 0} (live waiting : List FilePath) (results : List T) (value : T)
    → length (top_up live waiting (results ++ value ∷ [])).results ≡ length results + 1
unfolding top_up
length-top_up live [] results value = omega (arith, length-append results (value ∷ []))
length-top_up live (path ∷ waiting) results value =
    omega (arith, length-append results (value ∷ []))

-- A turn that goes well keeps the bounds.
pub absorb-IsBounded :
    {E T : Type 0} (map_join_error : Bytes → E) (limit total : ℕ) (path : FilePath)
    (live rest : List FilePath) (pump pump' : Pump T) (j : Joined E T)
    → pump.live ≡ path ∷ live
    → length rest ≡ length live
    → IsBounded limit total pump
    → absorb map_join_error rest pump j ≡ ok pump'
    → IsBounded limit total pump'
unfolding absorb joined
absorb-IsBounded map_join_error limit total path live rest pump pump' (join_error text) is_live same
      h e =
    cc
absorb-IsBounded map_join_error limit total path live rest pump pump' (finished (err fault)) is_live
      same h e =
    cc
absorb-IsBounded map_join_error limit total path live rest pump pump' (finished (ok value)) is_live
      same h e =
    let lens : length pump.live ≡ suc (length live) = ap length is_live in
    rw (← ok_injective e) (
      top_up-IsBounded limit total rest pump.waiting pump.results value
        (omega (arith, lens, same, h.bounded)) (ground (arith, lens, same, h.busy))
        (omega (arith, lens, same, h.complete)))

length-absorb :
    {E T : Type 0} (map_join_error : Bytes → E) (rest : List FilePath) (pump pump' : Pump T)
    (j : Joined E T)
    → absorb map_join_error rest pump j ≡ ok pump'
    → length pump'.results ≡ length pump.results + 1
unfolding absorb joined
length-absorb map_join_error rest pump pump' (join_error text) e = cc
length-absorb map_join_error rest pump pump' (finished (err fault)) e = cc
length-absorb map_join_error rest pump pump' (finished (ok value)) e =
    rw (← ok_injective e) (length-top_up rest pump.waiting pump.results value)

module _ {W E T : Type 0} (work_fn : FilePath → W → Joined E T × W)
    (map_join_error : Bytes → E) where
  -- The pump has a turn for each path: it ends with nothing alive and nothing waiting.
  pump_loop_done :
      (limit total fuel : ℕ) (schedule : List ℕ) (pump : Pump T) (w : W)
      → 0 < limit
      → IsBounded limit total pump
      → length pump.live + length pump.waiting ≤ fuel
      → Ensures
          (λ pump' w'. length pump'.results ≡ total)
          (pump_loop work_fn map_join_error fuel schedule pump w)
  unfolding pump_loop
  pump_loop_done limit total zero schedule pump w pos h enough = omega (arith, h.complete)
  pump_loop_done limit total (suc fuel) schedule pump w pos h enough = elim (List-cases pump.live) [
    | inl none_live ↦
        let no_live : length pump.live ≡ 0 = ap length none_live in
        rw (none_live, pump_loop) (ground (arith, no_live, h.complete, h.busy))
    | inr (path, live, is_live) ↦
        let (picked, rest) = pick (choice schedule) path live in
        let w1 = (work_fn picked w).1 in
        elim (Result-cases (absorb map_join_error rest pump (work_fn picked w).0)) [
          | inl (fault, failed) ↦ rw (is_live, pump_loop, failed) tt
          | inr (pump', went) ↦
              let h' =
                absorb-IsBounded map_join_error limit total path live rest pump pump'
                  (work_fn picked w).0 is_live (length-pick (choice schedule) path live) h went in
              let more = length-absorb map_join_error rest pump pump' (work_fn picked w).0 went in
              rw (is_live, pump_loop, went)
                (pump_loop_done limit total fuel (drop 1 schedule) pump' w1 pos h'
                  (omega (arith, h.complete, h'.complete, more, enough)))
        ]
  ]

  -- A scan that succeeds has a result for each path.
  pub length-bounded_parallel_scan :
      (schedule : List ℕ) (paths : List FilePath) (max_in_flight : ℕ) (w : W)
      → 0 < max_in_flight
      → Ensures
          (λ results w'. length results ≡ length paths)
          (bounded_parallel_scan work_fn map_join_error schedule paths max_in_flight w)
  unfolding bounded_parallel_scan
  length-bounded_parallel_scan schedule paths max_in_flight w pos =
      let start = spawn_first-IsBounded {T = T} max_in_flight paths in
      let done =
        pump_loop_done max_in_flight (length paths) (length paths) schedule
          (spawn_first max_in_flight paths) w pos start (omega (arith, start.complete)) in
      elim (Result-cases
        (pump_loop work_fn map_join_error (length paths) schedule (spawn_first max_in_flight paths)
          w).0) [
            | inl (fault, failed) ↦ rw (failed, bounded_parallel_scan) tt
            | inr (pump, went) ↦
                rw (went, bounded_parallel_scan)
                  (Ensures-at (λ pump1 w1. length pump1.results ≡ length paths) _ pump done went)
          ]
