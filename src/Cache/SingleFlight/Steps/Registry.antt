-- ===== src/Cache/SingleFlight/Steps/Registry.antt =====
-- The registry and the lists of handles under the operations (src/cache/singleflight.rs).
use tiny_s3_proxy.Prelude.{
  Bool, List, Option-cases, [], arith, false, if◌then◌else◌, inl, inr, none, some, true, ℕ, ◌&&◌,
  ◌==◌, ◌||◌, ◌∷◌, ◌≡◌, ◌≢◌, ◌↔◌,
}
use tiny_s3_proxy.Cache.Key.{CacheKey, key_eq, key_eq_iff}
use tiny_s3_proxy.Cache.SingleFlight.{
  Registry, find, remove, insert, FlightWaiter, SingleFlight, remove_own,
}
use tiny_s3_proxy.Cache.SingleFlight.Steps.{World, pick, without}

pub find-remove :
    (j k : CacheKey) (registry : Registry)
    → find k (remove j registry) ≡ (if key_eq j k then none else find k registry)
unfolding find remove
find-remove j k [] = ground arith
find-remove j k ((i, g) ∷ registry) =
    ground (arith, find-remove j k registry, key_eq_iff i j, key_eq_iff i k, key_eq_iff j k)

pub find-insert :
    (j k : CacheKey) (g : ℕ) (registry : Registry)
    → find k (insert j g registry) ≡ (if key_eq j k then some g else find k registry)
unfolding find insert
find-insert j k g registry = ground (arith, find-remove j k registry)

-- Some handle of the list is of this flight.
abbrev pub held : CacheKey → ℕ → List FlightWaiter → Bool
held k g [] = false
held k g (w ∷ ws) = (key_eq w.key k && w.generation == g) || held k g ws

-- A live leader or a spawned clean-up has the flight.
abbrev pub has_owner : CacheKey → ℕ → World → Bool
has_owner k g world = held k g world.waiters || held k g world.spawned

pub held-without :
    (k : CacheKey) (g h : ℕ) (ws : List FlightWaiter)
    → held k g (without h ws) ≡ (if h == g then false else held k g ws)
unfolding without
held-without k g h [] = ground arith
held-without k g h (w ∷ ws) = ground (arith, held-without k g h ws)

pub held-pick :
    (g : ℕ) (ws : List FlightWaiter) (w : FlightWaiter)
    → pick g ws ≡ some w
    → (held w.key g ws ≡ true) × (w.generation ≡ g)
unfolding pick
held-pick g [] w h = cc
held-pick g (v ∷ ws) w h = ground (arith, held-pick g ws w, key_eq_iff v.key w.key)

-- What `remove_own` leaves: the entries of other flights, and nothing else changes.
pub find-remove_own :
    (w : FlightWaiter) (s : SingleFlight) (k : CacheKey) (g : ℕ)
    → find k (remove_own w s).registry ≡ some g
    → (find k s.registry ≡ some g) × ((k ≡ w.key) → (g ≢ w.generation))
unfolding remove_own
find-remove_own w s k g h = elim (Option-cases (find w.key s.registry)) [
  | inl e ↦ ground arith
  | inr (own, e) ↦ ground (arith, find-remove w.key k s.registry, key_eq_iff w.key k)
]

pub next_generation-remove_own :
    (w : FlightWaiter) (s : SingleFlight) → (remove_own w s).next_generation ≡ s.next_generation
unfolding remove_own
next_generation-remove_own w s = ground arith

-- What `remove_own` keeps: every entry that is not of this flight.
pub remove_own-keeps :
    (w : FlightWaiter) (s : SingleFlight) (k : CacheKey) (g : ℕ)
    → find k s.registry ≡ some g
    → g ≢ w.generation
    → find k (remove_own w s).registry ≡ some g
unfolding remove_own
remove_own-keeps w s k g h other = elim (Option-cases (find w.key s.registry)) [
  | inl e ↦ ground arith
  | inr (own, e) ↦ ground (arith, find-remove w.key k s.registry, key_eq_iff w.key k)
]

-- A leader that completes or is dropped takes its own flight out of the registry, whatever
-- cancellations and new flights there have been since, and no other flight.
pub find-remove_own_iff :
    (w : FlightWaiter) (s : SingleFlight) (k : CacheKey) (g : ℕ)
    → (find k (remove_own w s).registry ≡ some g)
      ↔ ((find k s.registry ≡ some g) × ((k ≡ w.key) → (g ≢ w.generation)))
unfolding remove_own
find-remove_own_iff w s k g = elim (Option-cases (find w.key s.registry)) [
  | inl e ↦ ground arith
  | inr (own, e) ↦ ground (arith, find-remove w.key k s.registry, key_eq_iff w.key k)
]
