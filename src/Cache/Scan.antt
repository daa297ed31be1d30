-- ===== src/Cache/Scan.antt =====
-- The pump that keeps a bounded number of shard tasks alive (src/cache/scan.rs). The runtime picks
-- which live task is joined next: each turn takes one number of a schedule, and a schedule that is
-- used up picks the oldest. A task's effects stand at its join; what another task does in between
-- is part of the world.
pub mod Bounded
pub mod Tracked
pub mod Invariant
pub mod Failure
mod Tests
use tiny_s3_proxy.Text.{Bytes}
use tiny_s3_proxy.Prelude.{List, Result, [], drop, err, length, ok, suc, take, zero, ℕ, ◌++◌, ◌∷◌}
use tiny_s3_proxy.Cache.FileSystem.{FilePath}

-- CACHE_HASH_DIR_SCAN_CONCURRENCY
abbrev pub cache_hash_dir_scan_concurrency : ℕ
cache_hash_dir_scan_concurrency = 64

-- What `join_next` yields: a task's result, or a JoinError with its text.
pub data Joined (E T : Type 0) : Type 0 where
  finished : Result E T → Joined E T
  join_error : Bytes → Joined E T

-- `join_set`, the paths that `iter` has left, and `results`
pub record Pump (T : Type 0) : Type 0 where
  pub live : List FilePath
  pub waiting : List FilePath
  pub results : List T

-- One element and the others; an index past the end takes the last.
unfoldable pub pick : ℕ → FilePath → List FilePath → FilePath × List FilePath
pick zero path paths = (path, paths)
pick (suc i) path [] = (path, [])
pick (suc i) path (next ∷ paths) = let (picked, rest) = pick i next paths in (picked, path ∷ rest)

abbrev pub choice : List ℕ → ℕ
choice [] = 0
choice (i ∷ is) = i

module _ {T : Type 0} where
  unfoldable pub spawn_first : (cap : ℕ) → List FilePath → Pump T
  spawn_first cap paths = record { live = take cap paths; waiting = drop cap paths; results = [] }

  -- A task has ended well: its place is given to the next path.
  unfoldable pub top_up : (live : List FilePath) → (waiting : List FilePath) → List T → Pump T
  top_up live [] results = record { live = live; waiting = []; results = results }
  top_up live (path ∷ waiting) results = record {
    live = live ++ path ∷ [];
    waiting = waiting;
    results = results;
  }

  unfoldable pub joined : (live : List FilePath) → Pump T → T → Pump T
  unfolding top_up
  joined live pump value = top_up live pump.waiting (pump.results ++ value ∷ [])

-- The three arms of the match on what was joined, with `rest` the tasks that are still alive.
unfoldable pub absorb :
    {E T : Type 0} (map_join_error : Bytes → E) (rest : List FilePath)
    → Pump T
    → Joined E T
    → Result E (Pump T)
unfolding joined
absorb map_join_error rest pump (finished (ok value)) = ok (joined rest pump value)
absorb map_join_error rest pump (finished (err e)) = err e
absorb map_join_error rest pump (join_error text) = err (map_join_error text)

module _ {W E T : Type 0} (work_fn : FilePath → W → Joined E T × W)
    (map_join_error : Bytes → E) where
  -- One turn of the loop that joins the live task `path`.
  unfoldable pub turn :
      (path : FilePath) (rest : List FilePath) → Pump T → W → Result E (Pump T) × W
  unfolding absorb
  turn path rest pump w = let (j, w1) = work_fn path w in (absorb map_join_error rest pump j, w1)

  -- `while let Some(join_result) = join_set.join_next().await`, on fuel. The pump is returned.
  unfoldable pub pump_loop : (fuel : ℕ) (schedule : List ℕ) → Pump T → W → Result E (Pump T) × W
  unfolding turn pick
  pump_loop zero schedule pump w = (ok pump, w)
  pump_loop (suc fuel) schedule pump w = elim pump.live [
    | [] ↦ (ok pump, w)
    | path ∷ paths ↦
        let (picked, rest) = pick (choice schedule) path paths in
        let (r, w1) = turn picked rest pump w in
        elim r [ err e ↦ (err e, w1) | ok pump' ↦ pump_loop fuel (drop 1 schedule) pump' w1 ]
  ]

  -- Each turn ends one task, so a turn for each path is enough. `max_in_flight` is not 0.
  unfoldable pub bounded_parallel_scan :
      (schedule : List ℕ) → List FilePath → (max_in_flight : ℕ) → W → Result E (List T) × W
  unfolding pump_loop spawn_first
  bounded_parallel_scan schedule paths max_in_flight w =
      let (r, w1) = pump_loop (length paths) schedule (spawn_first max_in_flight paths) w in
      elim r [ err e ↦ (err e, w1) | ok pump ↦ (ok pump.results, w1) ]
