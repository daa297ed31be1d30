-- ===== src/Cache/Scan/Invariant.antt =====
-- The invariant rule of the pump (src/cache/scan.rs).
use tiny_s3_proxy.Prelude.{
  List, [], drop, err, length, ok, suc, zero, ℕ, ◌++◌, ◌∷◌, ◌≡◌, List-cases, Result-cases, inl, inr,
  refl, Ensures, Ensures-at,
}
use tiny_s3_proxy.Text.{Bytes}
use tiny_s3_proxy.Cache.FileSystem.{FilePath}
use tiny_s3_proxy.Cache.Scan.{
  Joined, Pump, absorb, bounded_parallel_scan, choice, finished, join_error, joined, pick,
  pump_loop, spawn_first, top_up, turn,
}

results-top_up :
    {T : Type 0} (live waiting : List FilePath) (results : List T)
    → (top_up live waiting results).results ≡ results
unfolding top_up
results-top_up live [] results = refl
results-top_up live (path ∷ waiting) results = refl

module _ {W E T : Type 0} (work_fn : FilePath → W → Joined E T × W) (map_join_error : Bytes → E)
    (Inv : List T → W → Type 0) where
  -- What a task does to the invariant.
  abbrev pub Extends : List T → Joined E T × W → Type 0
  Extends results (finished (ok value), w) = Inv (results ++ value ∷ []) w
  Extends results (finished (err e), w) = Unit
  Extends results (join_error text, w) = Unit

  absorb-Extends :
      (rest : List FilePath) (pump : Pump T) (j : Joined E T) (w : W)
      → Extends pump.results (j, w)
      → Ensures (λ pump' w'. Inv pump'.results w') (absorb map_join_error rest pump j, w)
  unfolding absorb joined
  absorb-Extends rest pump (join_error text) w h = tt
  absorb-Extends rest pump (finished (err e)) w h = tt
  absorb-Extends rest pump (finished (ok value)) w h =
      rw (results-top_up rest pump.waiting (pump.results ++ value ∷ [])) h

  module _
      (keeps : (path : FilePath) (results : List T) (w : W)
        → Inv results w
        → Extends results (work_fn path w)) where
    pump_loop-Inv :
        (fuel : ℕ) (schedule : List ℕ) (pump : Pump T) (w : W)
        → Inv pump.results w
        → Ensures
            (λ pump' w'. Inv pump'.results w')
            (pump_loop work_fn map_join_error fuel schedule pump w)
    unfolding pump_loop turn
    pump_loop-Inv zero schedule pump w h = h
    pump_loop-Inv (suc fuel) schedule pump w h = elim (List-cases pump.live) [
      | inl none_live ↦ rw (none_live, pump_loop) h
      | inr (path, live, is_live) ↦
          let (picked, rest) = pick (choice schedule) path live in
          let (j, w1) = work_fn picked w in
          let here = absorb-Extends rest pump j w1 (keeps picked pump.results w h) in
          elim (Result-cases (absorb map_join_error rest pump j)) [
            | inl (fault, failed) ↦ rw (is_live, pump_loop, failed) tt
            | inr (pump', went) ↦
                rw (is_live, pump_loop, went)
                  (pump_loop-Inv fuel (drop 1 schedule) pump' w1
                    (Ensures-at (λ p w'. Inv p.results w') _ pump' here went))
          ]
    ]

    -- An invariant that every task keeps holds of the results.
    pub bounded_parallel_scan-Inv :
        (schedule : List ℕ) (paths : List FilePath) (max_in_flight : ℕ) (w : W)
        → Inv [] w
        → Ensures Inv (bounded_parallel_scan work_fn map_join_error schedule paths max_in_flight w)
    unfolding bounded_parallel_scan spawn_first
    bounded_parallel_scan-Inv schedule paths max_in_flight w h =
        let done = pump_loop-Inv (length paths) schedule (spawn_first max_in_flight paths) w h in
        elim (Result-cases
          (pump_loop work_fn map_join_error (length paths) schedule
            (spawn_first max_in_flight paths) w).0) [
              | inl (fault, failed) ↦ rw (failed, bounded_parallel_scan) tt
              | inr (pump, went) ↦
                  rw (went, bounded_parallel_scan)
                    (Ensures-at (λ p w'. Inv p.results w') _ pump done went)
            ]
