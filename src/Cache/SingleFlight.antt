-- ===== src/Cache/SingleFlight.antt =====
-- One fetch for concurrent misses of a key (src/cache/singleflight.rs). The registry is behind a
-- mutex, so each operation that holds the lock is one step. A broadcast channel is named by the
-- generation of the flight that has made it.
pub mod Steps
use tiny_s3_proxy.Prelude.{List, Option, [], if◌then◌else◌, none, some, ℕ, ◌%◌, ◌+◌, ◌==◌, ◌^◌, ◌∷◌}
use tiny_s3_proxy.Cache.Key.{CacheKey, key_eq}

-- HashMap<CacheKey, FlightEntry>: the generation of each key's flight.
abbrev pub Registry : Type 0
Registry = List (CacheKey × ℕ)

unfoldable pub find : CacheKey → Registry → Option ℕ
find k [] = none
find k ((j, g) ∷ registry) = if key_eq j k then some g else find k registry

unfoldable pub remove : CacheKey → Registry → Registry
remove k [] = []
remove k ((j, g) ∷ registry) =
    let rest = remove k registry in if key_eq j k then rest else (j, g) ∷ rest

unfoldable pub insert : CacheKey → ℕ → Registry → Registry
unfolding remove
insert k g registry = (k, g) ∷ remove k registry

-- The leader's handle.
pub record FlightWaiter : Type 0 where
  pub key : CacheKey
  pub generation : ℕ

pub data FlightResult : Type 0 where
  leader : FlightWaiter → FlightResult
  follower : (channel : ℕ) → FlightResult

pub record SingleFlight : Type 0 where
  pub registry : Registry
  pub next_generation : ℕ

unfoldable pub new : SingleFlight
new = record { registry = []; next_generation = 1 }

-- `fetch_add` wraps around at 2^64.
unfoldable pub try_acquire : CacheKey → SingleFlight → FlightResult × SingleFlight
unfolding insert
try_acquire key s = elim (find key s.registry) [
  | some g ↦ (follower g, s)
  | none ↦
      let g = s.next_generation in
      (
        leader (record { key = key; generation = g }),
        record { registry = insert key g s.registry; next_generation = (g + 1) % 2 ^ 64 },
      )
]

-- What `complete` and `drop` do under the lock: the entry goes if it is of this flight.
unfoldable pub remove_own : FlightWaiter → SingleFlight → SingleFlight
remove_own w s = elim (find w.key s.registry) [
  | none ↦ s
  | some g ↦ if g == w.generation then record s { registry = remove w.key s.registry } else s
]

unfoldable pub cancel : CacheKey → SingleFlight → SingleFlight
cancel key s = record s { registry = remove key s.registry }
