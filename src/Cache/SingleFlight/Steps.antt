-- ===== src/Cache/SingleFlight/Steps.antt =====
-- The flights of a process as a state machine over every interleaving of acquisitions,
-- completions, drops, deferred clean-ups and cancellations (src/cache/singleflight.rs).
pub mod Registry
pub mod Leaders
pub mod Exclusive
use tiny_s3_proxy.Prelude.{
  Bool, List, Option, [], false, if◌then◌else◌, none, some, true, ℕ, ◌==◌, ◌∷◌,
}
use tiny_s3_proxy.Cache.Key.{CacheKey}
use tiny_s3_proxy.Cache.SingleFlight.{
  FlightWaiter, FlightResult, leader, follower, SingleFlight, new, try_acquire, remove_own, cancel,
}

-- The shared state, the live leaders, and the clean-up tasks that drops have spawned.
pub record World : Type 0 where
  pub flights : SingleFlight
  pub waiters : List FlightWaiter
  pub spawned : List FlightWaiter

-- A completion or a drop names its flight. `busy`: the drop has found the lock taken.
pub data Event : Type 0 where
  acquire : CacheKey → Event
  complete drop_leader : (generation : ℕ) (busy : Bool) → Event
  clean_up : (generation : ℕ) → Event
  cancel_key : CacheKey → Event

unfoldable pub pick : ℕ → List FlightWaiter → Option FlightWaiter
pick g [] = none
pick g (w ∷ ws) = if w.generation == g then some w else pick g ws

unfoldable pub without : ℕ → List FlightWaiter → List FlightWaiter
without g [] = []
without g (w ∷ ws) = let rest = without g ws in if w.generation == g then rest else w ∷ rest

-- Drop::drop of a leader that is no longer live.
unfoldable pub drop_waiter : FlightWaiter → Bool → World → World
drop_waiter w true world = record world { spawned = w ∷ world.spawned }
drop_waiter w false world = record world { flights = remove_own w world.flights }

abbrev keep_leader : FlightResult → List FlightWaiter → List FlightWaiter
keep_leader (leader w) ws = w ∷ ws
keep_leader (follower g) ws = ws

-- `complete` consumes its waiter, which is dropped when it returns.
unfoldable pub step : World → Event → World
step world (acquire key) =
    let (result, s) = try_acquire key world.flights in
    record world { flights = s; waiters = keep_leader result world.waiters }
step world (complete g busy) = elim (pick g world.waiters) [
  | none ↦ world
  | some w ↦
      drop_waiter w busy
        (record world { flights = remove_own w world.flights; waiters = without g world.waiters })
]
step world (drop_leader g busy) = elim (pick g world.waiters) [
  | none ↦ world
  | some w ↦ drop_waiter w busy (record world { waiters = without g world.waiters })
]
step world (clean_up g) = elim (pick g world.spawned) [
  | none ↦ world
  | some w ↦ record world {
    flights = remove_own w world.flights;
    spawned = without g world.spawned;
  }
]
step world (cancel_key key) = record world { flights = cancel key world.flights }

unfoldable pub start : World
start = record { flights = new; waiters = []; spawned = [] }

unfoldable pub run : World → List Event → World
run world [] = world
run world (e ∷ events) = run (step world e) events
