-- ===== src/Cache/Scan/Failure.antt =====
-- The errors of a parallel scan are those of its tasks, and those of the runtime
-- (src/cache/scan.rs).
use tiny_s3_proxy.Prelude.{
  List, drop, err, length, ok, suc, zero, ℕ, List-cases, Result-cases, inl, inr, Fails, Fails-at,
}
use tiny_s3_proxy.Text.{Bytes}
use tiny_s3_proxy.Cache.FileSystem.{FilePath}
use tiny_s3_proxy.Cache.Scan.{
  Joined, Pump, absorb, bounded_parallel_scan, choice, finished, join_error, pick, pump_loop,
  spawn_first, turn,
}

-- What the error of a task is like.
abbrev pub TaskFails : {W E T : Type 0} → (E → Type 0) → Joined E T × W → Type 0
TaskFails Bad (finished (err e), w) = Bad e
TaskFails Bad _ = Unit

absorb-Fails :
    {W E T : Type 0} (map_join_error : Bytes → E) (Bad : E → Type 0) (rest : List FilePath)
    (pump : Pump T) (j : Joined E T) (w : W)
    → TaskFails Bad (j, w)
    → ((text : Bytes) → Bad (map_join_error text))
    → Fails Bad (absorb map_join_error rest pump j, w)
unfolding absorb
absorb-Fails map_join_error Bad rest pump (join_error text) w h join = join text
absorb-Fails map_join_error Bad rest pump (finished (err e)) w h join = h
absorb-Fails map_join_error Bad rest pump (finished (ok value)) w h join = tt

module _ {W E T : Type 0} (work_fn : FilePath → W → Joined E T × W) (map_join_error : Bytes → E)
    (Bad : E → Type 0) (join : (text : Bytes) → Bad (map_join_error text))
    (task : (path : FilePath) (w : W) → TaskFails Bad (work_fn path w)) where
  pump_loop-Fails :
      (fuel : ℕ) (schedule : List ℕ) (pump : Pump T) (w : W)
      → Fails Bad (pump_loop work_fn map_join_error fuel schedule pump w)
  unfolding pump_loop turn
  pump_loop-Fails zero schedule pump w = tt
  pump_loop-Fails (suc fuel) schedule pump w = elim (List-cases pump.live) [
    | inl none_live ↦ rw (none_live, pump_loop) tt
    | inr (path, live, is_live) ↦
        let (picked, rest) = pick (choice schedule) path live in
        let (j, w1) = work_fn picked w in
        let here = absorb-Fails map_join_error Bad rest pump j w1 (task picked w) join in
        elim (Result-cases (absorb map_join_error rest pump j)) [
          | inl (fault, failed) ↦ rw (is_live, pump_loop, failed) (Fails-at Bad _ fault here failed)
          | inr (pump', went) ↦
              rw (is_live, pump_loop, went) (pump_loop-Fails fuel (drop 1 schedule) pump' w1)
        ]
  ]

  pub bounded_parallel_scan-Fails :
      (schedule : List ℕ) (paths : List FilePath) (max_in_flight : ℕ) (w : W)
      → Fails Bad (bounded_parallel_scan work_fn map_join_error schedule paths max_in_flight w)
  unfolding bounded_parallel_scan
  bounded_parallel_scan-Fails schedule paths max_in_flight w =
      let start = spawn_first max_in_flight paths in
      let done = pump_loop-Fails (length paths) schedule start w in
      elim (Result-cases (pump_loop work_fn map_join_error (length paths) schedule start w).0) [
        | inl (fault, failed) ↦
            rw (failed, bounded_parallel_scan) (Fails-at Bad _ fault done failed)
        | inr (pump, went) ↦ rw (went, bounded_parallel_scan) tt
      ]
