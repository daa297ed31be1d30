-- ===== src/Cache/SingleFlight/Steps/Leaders.antt =====
-- Who holds the flights that are registered (src/cache/singleflight.rs).
use tiny_s3_proxy.Cache.SingleFlight.Steps.Registry.{
  has_owner, find-insert, held-pick, find-remove_own, next_generation-remove_own, held-without,
  find-remove,
}
use tiny_s3_proxy.Prelude.{
  List, Option-cases, [], arith, inl, inr, some, true, ℕ, ◌+◌, ◌<◌, ◌^◌, ◌∷◌, ◌≡◌, ◌≢◌, Bool-cases,
  refl, ◌∙◌, ◌≤◌, length,
}
use tiny_s3_proxy.Cache.Key.{CacheKey, key_eq_iff}
use tiny_s3_proxy.Cache.SingleFlight.{
  find, FlightWaiter, SingleFlight, new, try_acquire, remove_own, cancel,
}
use tiny_s3_proxy.Cache.SingleFlight.Steps.{
  World, Event, acquire, complete, drop_leader, clean_up, cancel_key, pick, without, drop_waiter,
  step, start, run,
}

pub record IsSound (world : World) : Type 0 where
  pub owned :
      (k : CacheKey) (g : ℕ) → find k world.flights.registry ≡ some g → has_owner k g world ≡ true
  pub fresh :
      (k : CacheKey) (g : ℕ) → has_owner k g world ≡ true → g < world.flights.next_generation
  pub unique :
      (j k : CacheKey) (g : ℕ) → has_owner j g world ≡ true → has_owner k g world ≡ true → j ≡ k

-- A step that makes no flight and forgets no owner of a registered one.
fewer-IsSound :
    (a b : World)
    → IsSound a
    → b.flights.next_generation ≡ a.flights.next_generation
    → ((k : CacheKey) (g : ℕ)
        → find k b.flights.registry ≡ some g
        → find k a.flights.registry ≡ some g)
    → ((k : CacheKey) (g : ℕ) → has_owner k g b ≡ true → has_owner k g a ≡ true)
    → ((k : CacheKey) (g : ℕ)
        → find k b.flights.registry ≡ some g
        → has_owner k g a ≡ true
        → has_owner k g b ≡ true)
    → IsSound b
fewer-IsSound a b v next fewer from kept = record {
  owned = λ k g h. kept k g h (v.owned k g (fewer k g h));
  fresh = λ k g h. rw next (v.fresh k g (from k g h));
  unique = λ j k g h i. v.unique j k g (from j g h) (from k g i);
}

acquire-IsSound :
    (world : World) (key : CacheKey)
    → world.flights.next_generation + 1 < 2 ^ 64
    → IsSound world
    → IsSound (step world (acquire key))
unfolding step try_acquire
acquire-IsSound world key room v = elim (Option-cases (find key world.flights.registry)) [
  | inr (g, e) ↦ rw (e, try_acquire) v
  | inl e ↦
      let s = world.flights in
      rw (e, try_acquire)
        (record {
          owned = λ k g h. ground (
            arith,
            find-insert key k s.next_generation s.registry,
            key_eq_iff key k,
            v.owned k g,
          );
          fresh = λ k g h. ground (arith, v.fresh k g);
          unique = λ j k g h i.
              ground (
                arith,
                v.unique j k g,
                v.fresh j g,
                v.fresh k g,
                key_eq_iff key j,
                key_eq_iff key k,
              );
        })
]

-- A leader that leaves, by completion or by a drop, with `s` the registry's state thereafter.
leave-IsSound :
    (world : World) (g : ℕ) (w : FlightWaiter) (s : SingleFlight)
    → pick g world.waiters ≡ some w
    → IsSound world
    → s.next_generation ≡ world.flights.next_generation
    → ((k : CacheKey) (h : ℕ)
        → find k s.registry ≡ some h
        → (find k world.flights.registry ≡ some h) × ((k ≡ w.key) → (h ≢ w.generation)))
    → IsSound (record world { flights = s; waiters = without g world.waiters })
leave-IsSound world g w s picked v next left =
    let (mine, same) = held-pick g world.waiters w picked in
    fewer-IsSound world _ v next (λ k h r. (left k h r).0)
      (λ k h o. ground (arith, held-without k h g world.waiters))
      (λ k h r o.
        ground (arith, held-without k h g world.waiters, v.unique k w.key h, (left k h r).1))

-- A leader whose clean-up is left to a task.
spawn-IsSound :
    (world : World) (g : ℕ) (w : FlightWaiter) (s : SingleFlight)
    → pick g world.waiters ≡ some w
    → IsSound world
    → s.next_generation ≡ world.flights.next_generation
    → ((k : CacheKey) (h : ℕ) → find k s.registry ≡ some h → find k world.flights.registry ≡ some h)
    → IsSound
        (record { flights = s; waiters = without g world.waiters; spawned = w ∷ world.spawned })
spawn-IsSound world g w s picked v next left =
    let (mine, same) = held-pick g world.waiters w picked in
    fewer-IsSound world _ v next left
      (λ k h o. ground (arith, held-without k h g world.waiters, key_eq_iff w.key k))
      (λ k h r o.
        ground (arith, held-without k h g world.waiters, v.unique k w.key h, key_eq_iff w.key k))

clean_up-IsSound :
    (world : World) (g : ℕ) (w : FlightWaiter)
    → pick g world.spawned ≡ some w
    → IsSound world
    → IsSound
        (record world { flights = remove_own w world.flights; spawned = without g world.spawned })
clean_up-IsSound world g w picked v =
    let (mine, same) = held-pick g world.spawned w picked in
    fewer-IsSound world _ v (next_generation-remove_own w world.flights)
      (λ k h r. (find-remove_own w world.flights k h r).0)
      (λ k h o. ground (arith, held-without k h g world.spawned))
      (λ k h r o. ground (
        arith,
        held-without k h g world.spawned,
        v.unique k w.key h,
        (find-remove_own w world.flights k h r).1,
      ))

twice :
    (w : FlightWaiter) (s : SingleFlight) (k : CacheKey) (h : ℕ)
    → find k (remove_own w (remove_own w s)).registry ≡ some h
    → (find k s.registry ≡ some h) × ((k ≡ w.key) → (h ≢ w.generation))
twice w s k h r = find-remove_own w s k h (find-remove_own w (remove_own w s) k h r).0

pub step-IsSound :
    (world : World) (e : Event)
    → world.flights.next_generation + 1 < 2 ^ 64
    → IsSound world
    → IsSound (step world e)
unfolding step drop_waiter cancel
step-IsSound world (acquire key) room v = acquire-IsSound world key room v
step-IsSound world (complete g busy) room v = elim (Option-cases (pick g world.waiters)) [
  | inl e ↦ rw (e, step) v
  | inr (w, e) ↦ elim (Bool-cases busy) [
    | inl later ↦
        rw (e, step, later)
          (spawn-IsSound world g w _ e v (next_generation-remove_own w world.flights)
            (λ k h r. (find-remove_own w world.flights k h r).0))
    | inr now ↦
        rw (e, step, now)
          (leave-IsSound world g w _ e v
            (next_generation-remove_own w (remove_own w world.flights)
              ∙ next_generation-remove_own w world.flights)
            (twice w world.flights))
  ]
]
step-IsSound world (drop_leader g busy) room v = elim (Option-cases (pick g world.waiters)) [
  | inl e ↦ rw (e, step) v
  | inr (w, e) ↦ elim (Bool-cases busy) [
    | inl later ↦ rw (e, step, later) (spawn-IsSound world g w _ e v refl (λ k h r. r))
    | inr now ↦
        rw (e, step, now)
          (leave-IsSound world g w _ e v (next_generation-remove_own w world.flights)
            (find-remove_own w world.flights))
  ]
]
step-IsSound world (clean_up g) room v = elim (Option-cases (pick g world.spawned)) [
  | inl e ↦ rw (e, step) v
  | inr (w, e) ↦ rw (e, step) (clean_up-IsSound world g w e v)
]
step-IsSound world (cancel_key key) room v =
    fewer-IsSound world _ v refl (λ k h r. ground (arith, find-remove key k world.flights.registry))
      (λ k h o. o) (λ k h r o. o)

pub next_generation-step :
    (world : World) (e : Event)
    → world.flights.next_generation + 1 < 2 ^ 64
    → (step world e).flights.next_generation ≤ world.flights.next_generation + 1
unfolding step drop_waiter try_acquire cancel
next_generation-step world (acquire key) room = ground arith
next_generation-step world (complete g busy) room = elim (Option-cases (pick g world.waiters)) [
  | inl e ↦ rw (e, step) (omega arith)
  | inr (w, e) ↦
      let s = world.flights in
      elim (Bool-cases busy) [
        | inl later ↦ ground (arith, next_generation-remove_own w s)
        | inr now ↦
            ground
              (arith, next_generation-remove_own w s, next_generation-remove_own w (remove_own w s))
      ]
]
next_generation-step world (drop_leader g busy) room = elim (Option-cases (pick g world.waiters)) [
  | inl e ↦ rw (e, step) (omega arith)
  | inr (w, e) ↦ elim (Bool-cases busy) [
    | inl later ↦ ground arith
    | inr now ↦ ground (arith, next_generation-remove_own w world.flights)
  ]
]
next_generation-step world (clean_up g) room = elim (Option-cases (pick g world.spawned)) [
  | inl e ↦ rw (e, step) (omega arith)
  | inr (w, e) ↦ ground (arith, next_generation-remove_own w world.flights)
]
next_generation-step world (cancel_key key) room = omega arith

run_from-IsSound :
    (events : List Event) (world : World)
    → world.flights.next_generation + length events < 2 ^ 64
    → IsSound world
    → IsSound (run world events)
unfolding run
run_from-IsSound [] world room v = v
run_from-IsSound (e ∷ events) world room v =
    let now : world.flights.next_generation + 1 < 2 ^ 64 = omega arith in
    let next = next_generation-step world e now in
    run_from-IsSound events (step world e) (omega arith) (step-IsSound world e now v)

-- After any interleaving of fewer than 2 ^ 64 - 1 acquisitions, completions, drops, clean-ups and
-- cancellations from the empty registry: every registered flight is owned by a live leader or a
-- spawned clean-up of that key and generation (no follower waits for a flight nobody will end);
-- the owners' generations are below the next one; and no generation is owned under two keys.
pub run-IsSound : (events : List Event) → length events + 1 < 2 ^ 64 → IsSound (run start events)
unfolding start new find
run-IsSound events short = run_from-IsSound events start (omega arith) (record {
  owned = λ k g h. ground arith;
  fresh = λ k g h. ground arith;
  unique = λ j k g h i. ground arith;
})
