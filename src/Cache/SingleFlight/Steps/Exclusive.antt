-- ===== src/Cache/SingleFlight/Steps/Exclusive.antt =====
-- How many leaders a key has while none is cancelled (src/cache/singleflight.rs).
use tiny_s3_proxy.Cache.SingleFlight.Steps.Registry.{
  held, find-insert, held-pick, remove_own-keeps, held-without,
}
use tiny_s3_proxy.Cache.Key.{key_eq_iff}
use tiny_s3_proxy.Cache.SingleFlight.Steps.Leaders.{
  IsSound, next_generation-step, step-IsSound, run-IsSound,
}
use tiny_s3_proxy.Cache.SingleFlight.Steps.{
  World, Event, step, cancel_key, pick, without, acquire, drop_waiter, run, start, complete,
  drop_leader, clean_up,
}
use tiny_s3_proxy.Cache.SingleFlight.{
  remove_own, FlightWaiter, CacheKey, try_acquire, SingleFlight, find, new,
}
use tiny_s3_proxy.Prelude.{
  Bool, Option-cases, arith, false, inl, inr, some, true, ℕ, ◌∷◌, ◌≡◌, ◌≢◌, All, Bool-cases, List,
  [], length, some_injective, sym, ◌+◌, ◌<◌, ◌^◌, ◌∙◌,
}

-- The flight of every live leader is registered, and no clean-up is pending for it.
pub record IsExclusive (world : World) : Type 0 where
  pub live :
      (k : CacheKey) (g : ℕ)
      → held k g world.waiters ≡ true
      → find k world.flights.registry ≡ some g
  pub apart :
      (j k : CacheKey) (g : ℕ) → held j g world.spawned ≡ true → held k g world.waiters ≡ false

abbrev pub is_cancel : Event → Bool
is_cancel (cancel_key key) = true
is_cancel _ = false

acquire-IsExclusive :
    (world : World) (key : CacheKey)
    → IsSound world
    → IsExclusive world
    → IsExclusive (step world (acquire key))
unfolding step try_acquire
acquire-IsExclusive world key v x = elim (Option-cases (find key world.flights.registry)) [
  | inr (g, e) ↦ rw (e, try_acquire) x
  | inl e ↦
      let s = world.flights in
      rw (e, try_acquire)
        (record {
          live = λ k g h.
              ground (
                arith,
                find-insert key k s.next_generation s.registry,
                key_eq_iff key k,
                x.live k g,
              );
          apart = λ j k g h. ground (arith, x.apart j k g, v.fresh j g);
        })
]

leave-IsExclusive :
    (world : World) (g : ℕ) (w : FlightWaiter) (s : SingleFlight)
    → pick g world.waiters ≡ some w
    → IsExclusive world
    → ((k : CacheKey) (h : ℕ)
        → find k world.flights.registry ≡ some h
        → h ≢ w.generation
        → find k s.registry ≡ some h)
    → IsExclusive (record world { flights = s; waiters = without g world.waiters })
leave-IsExclusive world g w s picked x kept =
    let (mine, same) = held-pick g world.waiters w picked in
    record {
      live = λ k h o. ground (
        arith,
        held-without k g h world.waiters,
        held-without k h g world.waiters,
        x.live k h,
        kept k h,
      );
      apart = λ j k h o. ground (arith, held-without k h g world.waiters, x.apart j k h);
    }

spawn-IsExclusive :
    (world : World) (g : ℕ) (w : FlightWaiter) (s : SingleFlight)
    → pick g world.waiters ≡ some w
    → IsExclusive world
    → ((k : CacheKey) (h : ℕ)
        → find k world.flights.registry ≡ some h
        → h ≢ w.generation
        → find k s.registry ≡ some h)
    → IsExclusive
        (record { flights = s; waiters = without g world.waiters; spawned = w ∷ world.spawned })
spawn-IsExclusive world g w s picked x kept =
    let (mine, same) = held-pick g world.waiters w picked in
    record {
      live = λ k h o. ground (arith, held-without k h g world.waiters, x.live k h, kept k h);
      apart = λ j k h o. ground (arith, held-without k h g world.waiters, x.apart j k h);
    }

clean_up-IsExclusive :
    (world : World) (g : ℕ) (w : FlightWaiter)
    → pick g world.spawned ≡ some w
    → IsExclusive world
    → IsExclusive
        (record world { flights = remove_own w world.flights; spawned = without g world.spawned })
clean_up-IsExclusive world g w picked x =
    let (mine, same) = held-pick g world.spawned w picked in
    record {
      live = λ k h o.
          ground (arith, x.live k h, x.apart w.key k g, remove_own-keeps w world.flights k h);
      apart = λ j k h o. ground (arith, held-without j h g world.spawned, x.apart j k h);
    }

step-IsExclusive :
    (world : World) (e : Event)
    → is_cancel e ≡ false
    → IsSound world
    → IsExclusive world
    → IsExclusive (step world e)
unfolding step drop_waiter
step-IsExclusive world (acquire key) quiet v x = acquire-IsExclusive world key v x
step-IsExclusive world (complete g busy) quiet v x = elim (Option-cases (pick g world.waiters)) [
  | inl e ↦ rw (e, step) x
  | inr (w, e) ↦
      let s = world.flights in
      let kept = remove_own-keeps w s in
      elim (Bool-cases busy) [
        | inl later ↦ rw (e, step, later) (spawn-IsExclusive world g w (remove_own w s) e x kept)
        | inr now ↦
            rw (e, step, now)
              (leave-IsExclusive world g w (remove_own w (remove_own w s)) e x
                (λ k h f other. remove_own-keeps w (remove_own w s) k h (kept k h f other) other))
      ]
]
step-IsExclusive world (drop_leader g busy) quiet v x = elim (Option-cases (pick g world.waiters)) [
  | inl e ↦ rw (e, step) x
  | inr (w, e) ↦ elim (Bool-cases busy) [
    | inl later ↦ rw (e, step, later) (spawn-IsExclusive world g w _ e x (λ k h f other. f))
    | inr now ↦
        rw (e, step, now) (leave-IsExclusive world g w _ e x (remove_own-keeps w world.flights))
  ]
]
step-IsExclusive world (clean_up g) quiet v x = elim (Option-cases (pick g world.spawned)) [
  | inl e ↦ rw (e, step) x
  | inr (w, e) ↦ rw (e, step) (clean_up-IsExclusive world g w e x)
]
step-IsExclusive world (cancel_key key) quiet v x = cc

run_from-IsExclusive :
    (events : List Event) (world : World)
    → All (λ e. is_cancel e ≡ false) events
    → world.flights.next_generation + length events < 2 ^ 64
    → IsSound world
    → IsExclusive world
    → IsExclusive (run world events)
unfolding run
run_from-IsExclusive [] world quiet room v x = x
run_from-IsExclusive (e ∷ events) world (here, quiet) room v x =
    let now : world.flights.next_generation + 1 < 2 ^ 64 = omega arith in
    let next = next_generation-step world e now in
    run_from-IsExclusive events (step world e) quiet (omega arith) (step-IsSound world e now v)
      (step-IsExclusive world e here v x)

-- After any interleaving of fewer than 2 ^ 64 - 1 acquisitions, completions, drops and clean-ups,
-- none of them a cancellation, the flight of every live leader is the one registered for its key,
-- so that all live leaders of a key are of one flight, and no clean-up is pending for the flight of
-- a live leader.
pub run-IsExclusive :
    (events : List Event)
    → length events + 1 < 2 ^ 64
    → All (λ e. is_cancel e ≡ false) events
    → IsExclusive (run start events)
      × ((k : CacheKey) (g h : ℕ)
          → held k g (run start events).waiters ≡ true
          → held k h (run start events).waiters ≡ true
          → g ≡ h)
unfolding start new find run
run-IsExclusive events short quiet =
    let sound : IsSound start = run-IsSound [] (omega arith) in
    let first : IsExclusive start = record {
      live = λ k g h. ground arith;
      apart = λ j k g h. ground arith;
    } in
    let x = run_from-IsExclusive events start quiet (omega arith) sound first in
    (x, λ k g h a b. some_injective (sym (x.live k g a) ∙ x.live k h b))
