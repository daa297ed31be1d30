-- ===== src/Backend/Retry/Attempts.antt =====
-- Which attempt's result `with_retry` returns, and how long it waits (src/backend/retry.rs).
use tiny_s3_proxy.Text.{Bytes}
use tiny_s3_proxy.Prelude.{
  List, Option, Result, [], ap, arith, err, false, ok, suc, true, zero, ℕ, ◌+◌, ◌-◌, ◌<◌, ◌∷◌, ◌≡◌,
  ◌≤◌, ◌⊎◌, Bool, Bool-cases, Result-cases, inl, inr, max, none, not, refl, some, sym, ◌==◌, ◌||◌,
  if◌then◌else◌, ltb, min, ◌*◌,
}
use native.Mathlib.Nat.{pow-suc}
use native.Mathlib.Decide.{ℕ_discrete}
use tiny_s3_proxy.Error.{ProxyError, backend, timeout}
use tiny_s3_proxy.Backend.Retry.{
  RetryPolicy, for_writes, is_retryable, backoff_duration, duration_max, Run, retry_loop,
  with_retry,
}

-- The waits before `n` further attempts, the first of them with exponent `i`.
unfoldable pub backoffs : (base i n : ℕ) → List ℕ
backoffs base i zero = []
backoffs base i (suc n) = backoff_duration base i ∷ backoffs base (suc i) n

stop_reason :
    (retryable : Bool) (last first : ℕ)
    → first ≤ last
    → (not retryable || last - first == 0) ≡ true
    → (retryable ≡ false) ⊎ (first ≡ last)
stop_reason false last first fits h = inl refl
stop_reason true last first fits h = inr (ground arith)

go_reason :
    (retryable : Bool) (last first : ℕ)
    → (not retryable || last - first == 0) ≡ false
    → (retryable ≡ true) × (first < last)
go_reason false last first h = absurd (ground arith)
go_reason true last first h = (refl, ground arith)

module _ {T : Type 0} (policy : RetryPolicy) (f : ℕ → Result ProxyError T) where
  -- The attempt has failed with an error that the policy retries.
  abbrev pub Retried : ℕ → Type 0
  Retried j = (e : ProxyError) × (f j ≡ err e) × (is_retryable policy e ≡ true)

  -- The attempt has succeeded, or has failed with an error that is not retried, or is the last.
  abbrev pub IsFinal : (last j : ℕ) → Type 0
  IsFinal last j =
      ((t : T) × (f j ≡ ok t))
      ⊎ ((e : ProxyError) × (f j ≡ err e) × ((is_retryable policy e ≡ false) ⊎ (j ≡ last)))

  -- A run that starts at attempt `first` and may go on to attempt `last`.
  pub record IsRun (first last : ℕ) (run : Run T) : Type 0 where
    pub attempt : ℕ
    pub from_first : first ≤ attempt
    pub to_last : attempt ≤ last
    pub earlier : (j : ℕ) → first ≤ j → j < attempt → Retried j
    pub final : IsFinal last attempt
    pub returned : run.result ≡ f attempt
    pub waits : run.slept ≡ backoffs policy.base_backoff (first - 1) (attempt - first)

  now-IsRun :
      (first last : ℕ) (run : Run T)
      → first ≤ last
      → IsFinal last first
      → run.result ≡ f first
      → run.slept ≡ []
      → IsRun first last run
  unfolding backoffs
  now-IsRun first last run fits final returned quiet =
      let none_left : first - first ≡ 0 = omega arith in
      record {
        attempt = first;
        from_first = omega arith;
        to_last = fits;
        earlier = λ j p q. absurd (omega arith);
        final = final;
        returned = returned;
        waits = rw none_left quiet;
      }

  later-IsRun :
      (first last : ℕ) (run : Run T)
      → 0 < first
      → Retried first
      → IsRun (first + 1) last run
      → IsRun first last (record {
        result = run.result;
        slept = backoff_duration policy.base_backoff (first - 1) ∷ run.slept;
      })
  unfolding backoffs
  later-IsRun first last run positive retried later =
      let one_more : later.attempt - first ≡ suc (later.attempt - (first + 1)) =
        omega (arith, later.from_first) in
      let exponent : first + 1 - 1 ≡ suc (first - 1) = omega arith in
      record {
        attempt = later.attempt;
        from_first = omega (arith, later.from_first);
        to_last = later.to_last;
        earlier = λ j p q. elim (ℕ_discrete j first) [
          | yes same ↦ rw same retried
          | no other ↦ later.earlier j (omega arith) q
        ];
        final = later.final;
        returned = later.returned;
        waits = rw one_more (
            ap (λ l. backoff_duration policy.base_backoff (first - 1) ∷ l)
              (rw exponent at (later.waits)));
      }

  retry_loop-IsRun :
      (last rounds first : ℕ) (last_err : Option ProxyError)
      → first + rounds ≡ suc last
      → 0 < first
      → 0 < rounds
      → IsRun first last (retry_loop policy f last rounds first last_err)
  unfolding retry_loop
  retry_loop-IsRun last zero first last_err total positive some_left = absurd (omega arith)
  retry_loop-IsRun last (suc rounds) first last_err total positive some_left =
      elim (Result-cases (f first)) [
        | inr (t, done) ↦
            rw (done, retry_loop)
              (now-IsRun first last _ (omega arith) (inl (t, done)) (sym done) refl)
        | inl (e, failed) ↦ elim (Bool-cases (not (is_retryable policy e) || last - first == 0)) [
          | inl stop ↦
              rw (failed, stop, retry_loop)
                (now-IsRun first last _ (omega arith)
                  (inr
                    (e, failed, stop_reason (is_retryable policy e) last first (omega arith) stop))
                  (sym failed) refl)
          | inr go ↦
              let (again, room) = go_reason (is_retryable policy e) last first go in
              rw (failed, go, retry_loop)
                (later-IsRun first last _ positive (e, failed, again)
                  (retry_loop-IsRun last rounds (first + 1) (some e) (omega arith) (omega arith)
                    (omega arith)))
        ]
      ]

  -- `with_retry` returns what one attempt has returned. That attempt is the first one to succeed
  -- or to fail with an error that the policy does not retry, or else the last that the policy
  -- allows, at least one being allowed; each attempt before it has failed with a retryable error,
  -- and the waits between attempts are the backoffs 0, 1, 2, … .
  pub with_retry-IsRun : IsRun 1 (max policy.max_attempts 1) (with_retry policy f)
  unfolding with_retry
  with_retry-IsRun =
      retry_loop-IsRun (max policy.max_attempts 1) (max policy.max_attempts 1) 1 none (omega arith)
        (omega arith) (omega arith)

-- An error that is not retried ends the loop at the attempt that met it.
not_retried :
    {T : Type 0} (policy : RetryPolicy) (f : ℕ → Result ProxyError T) (last rounds first : ℕ)
    (last_err : Option ProxyError) (e : ProxyError)
    → 0 < rounds
    → f first ≡ err e
    → is_retryable policy e ≡ false
    → retry_loop policy f last rounds first last_err ≡ record { result = err e; slept = [] }
unfolding retry_loop
not_retried policy f last zero first last_err e some_left failed stop = absurd (omega arith)
not_retried policy f last (suc rounds) first last_err e some_left failed stop =
    rw (failed, stop, retry_loop)

-- Whatever the number of attempts, a write whose first attempt fails in transport, by a lost
-- connection or a timeout, returns that error at once, with no second attempt and no wait.
pub with_retry_write_transport :
    {T : Type 0} (attempts base_ms : ℕ) (f : ℕ → Result ProxyError T) (e : ProxyError)
    → f 1 ≡ err e
    → ((operation : Bytes) × (e ≡ backend operation))
      ⊎ ((operation : Bytes) × (e ≡ timeout operation))
    → with_retry (for_writes attempts base_ms) f ≡ record { result = err e; slept = [] }
unfolding with_retry
with_retry_write_transport attempts base_ms f e failed transport =
    not_retried (for_writes attempts base_ms) f _ _ 1 none e (omega arith) failed
      (not_retryable transport)
  where
    not_retryable :
        ((operation : Bytes) × (e ≡ backend operation))
          ⊎ ((operation : Bytes) × (e ≡ timeout operation))
        → is_retryable (for_writes attempts base_ms) e ≡ false
    not_retryable (inl (operation, is)) = rw is (unfold is_retryable for_writes in refl)
    not_retryable (inr (operation, is)) = rw is (unfold is_retryable for_writes in refl)

-- Each backoff is twice the one before, up to the longest duration, until the tenth doubling;
-- from then on the backoff stays the same.
pub backoff_duration-suc :
    (base i : ℕ)
    → backoff_duration base (suc i) ≡ (
        if ltb i 10
        then min (2 * backoff_duration base i) duration_max
        else backoff_duration base i)
unfolding backoff_duration
backoff_duration-suc base i = elim (Bool-cases (ltb i 10)) [
  | inl early ↦
      let here : min i 10 ≡ i = ground arith in
      let next : min (suc i) 10 ≡ suc i = ground arith in
      rw (early, here, next, pow-suc) (omega arith)
  | inr late ↦
      let here : min i 10 ≡ 10 = ground arith in
      let next : min (suc i) 10 ≡ 10 = ground arith in rw (late, here, next)
]
