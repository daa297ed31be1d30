-- ===== src/Cache/Tests.antt =====
-- Runs of the single-flight registry (src/cache/singleflight.rs).
use tiny_s3_proxy.Cache.SingleFlight.Steps.Registry.{held, find-remove_own_iff}
use tiny_s3_proxy.Cache.SingleFlight.{find, FlightWaiter, SingleFlight, remove_own}
use tiny_s3_proxy.Cache.SingleFlight.Steps.Exclusive.{IsExclusive, run-IsExclusive}
use tiny_s3_proxy.Cache.SingleFlight.Steps.Leaders.{IsSound, run-IsSound}
use tiny_s3_proxy.Cache.SingleFlight.Steps.{
  Event, run, acquire, start, cancel_key, drop_leader, complete, clean_up,
}
use tiny_s3_proxy.Text.{codes, bytes_eq}
use tiny_s3_proxy.Prelude.{List, [], arith, false, refl, true, ◌∷◌, ◌≡◌, some, ℕ, ◌↔◌, ◌≢◌}
use tiny_s3_proxy.Cache.Key.{CacheKey}

abbrev first_key : CacheKey
first_key = record { bucket = codes "b"; object_key = codes "k"; hash = codes "h1" }

abbrev second_key : CacheKey
second_key = record { bucket = codes "b"; object_key = codes "l"; hash = codes "h2" }

-- A flight is cancelled and made anew; the first leader's completion leaves the second's entry.
abbrev stale_completion : List Event
stale_completion =
    acquire first_key
    ∷ cancel_key first_key
    ∷ acquire first_key
    ∷ acquire second_key
    ∷ complete 1 false
    ∷ []

abbrev deferred_clean_up : List Event
deferred_clean_up = acquire first_key ∷ drop_leader 1 true ∷ acquire first_key ∷ clean_up 1 ∷ []

run-stale_completion :
    (run start stale_completion).flights.registry ≡ (second_key, 3) ∷ (first_key, 2) ∷ []
unfolding run tiny_s3_proxy.Cache.SingleFlight.Steps.step
    tiny_s3_proxy.Cache.SingleFlight.Steps.pick tiny_s3_proxy.Cache.SingleFlight.try_acquire
    tiny_s3_proxy.Cache.SingleFlight.find tiny_s3_proxy.Cache.SingleFlight.cancel start
    tiny_s3_proxy.Cache.SingleFlight.new tiny_s3_proxy.Cache.Key.key_eq tiny_s3_proxy.Text.bytes_eq
    tiny_s3_proxy.Cache.SingleFlight.Steps.drop_waiter tiny_s3_proxy.Cache.SingleFlight.remove_own
run-stale_completion = refl

run-deferred_clean_up : (run start deferred_clean_up).flights.registry ≡ []
unfolding run tiny_s3_proxy.Cache.SingleFlight.Steps.step
    tiny_s3_proxy.Cache.SingleFlight.Steps.pick tiny_s3_proxy.Cache.SingleFlight.try_acquire
    tiny_s3_proxy.Cache.SingleFlight.find start tiny_s3_proxy.Cache.SingleFlight.new
    tiny_s3_proxy.Cache.SingleFlight.Steps.drop_waiter tiny_s3_proxy.Cache.SingleFlight.remove_own
    tiny_s3_proxy.Cache.Key.key_eq tiny_s3_proxy.Text.bytes_eq
run-deferred_clean_up = refl

run-IsSound_example : IsSound (run start stale_completion)
run-IsSound_example = run-IsSound stale_completion (omega arith)

abbrev two_flights : List Event
two_flights =
    acquire first_key
    ∷ drop_leader 1 true
    ∷ acquire second_key
    ∷ clean_up 1
    ∷ acquire first_key
    ∷ []

run-IsExclusive_example :
    IsExclusive (run start two_flights)
    × ((k : CacheKey) (g h : ℕ)
        → held k g (run start two_flights).waiters ≡ true
        → held k h (run start two_flights).waiters ≡ true
        → g ≡ h)
run-IsExclusive_example =
    run-IsExclusive two_flights (omega arith) (refl, (refl, (refl, (refl, (refl, tt)))))

-- The first leader, after its flight has been cancelled and made anew.
abbrev stale : FlightWaiter
stale = record { key = first_key; generation = 1 }

abbrev made_anew : SingleFlight
made_anew = record { registry = (first_key, 2) ∷ []; next_generation = 3 }

find-remove_own_iff_example :
    (find first_key (remove_own stale made_anew).registry ≡ some 2)
    ↔ ((find first_key made_anew.registry ≡ some 2) × ((first_key ≡ first_key) → (◌≢◌ {A = ℕ} 2 1)))
find-remove_own_iff_example = find-remove_own_iff stale made_anew first_key 2
