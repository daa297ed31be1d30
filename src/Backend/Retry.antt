-- ===== src/Backend/Retry.antt =====
-- Retries with exponential backoff (src/backend/retry.rs). A duration is its nanoseconds. The
-- operation is a function from the attempt's number to what that attempt returns; log lines are
-- left out.
pub mod Attempts
use tiny_s3_proxy.Prelude.{
  Bool, List, Option, Result, [], err, false, max, min, none, not, ok, some, suc, true, zero, ℕ,
  ◌*◌, ◌+◌, ◌-◌, ◌==◌, ◌^◌, ◌||◌, ◌∷◌,
}
use tiny_s3_proxy.Error.{ProxyError, backend, timeout, upstream_s3, internal}

-- Duration::MAX
abbrev pub duration_max : ℕ
duration_max = (2 ^ 64 - 1) * 10 ^ 9 + 999999999

abbrev pub from_millis : ℕ → ℕ
from_millis ms = ms * 10 ^ 6

unfoldable pub saturating_mul : ℕ → ℕ → ℕ
saturating_mul d k = min (d * k) duration_max

pub record RetryPolicy : Type 0 where
  pub max_attempts : ℕ
  pub base_backoff : ℕ
  pub retryable_status_codes : List ℕ
  pub retry_transport_errors : Bool

unfoldable pub for_reads : (max_attempts base_backoff_ms : ℕ) → RetryPolicy
for_reads max_attempts base_backoff_ms = record {
  max_attempts = max_attempts;
  base_backoff = from_millis base_backoff_ms;
  retryable_status_codes = 408 ∷ 429 ∷ 500 ∷ 502 ∷ 503 ∷ 504 ∷ [];
  retry_transport_errors = true;
}

unfoldable pub for_idempotent_writes : (max_attempts base_backoff_ms : ℕ) → RetryPolicy
for_idempotent_writes max_attempts base_backoff_ms = record {
  max_attempts = max_attempts;
  base_backoff = from_millis base_backoff_ms;
  retryable_status_codes = 408 ∷ 429 ∷ 500 ∷ 502 ∷ 503 ∷ 504 ∷ [];
  retry_transport_errors = true;
}

unfoldable pub for_writes : (max_attempts base_backoff_ms : ℕ) → RetryPolicy
for_writes max_attempts base_backoff_ms = record {
  max_attempts = max_attempts;
  base_backoff = from_millis base_backoff_ms;
  retryable_status_codes = 408 ∷ 429 ∷ 503 ∷ [];
  retry_transport_errors = false;
}

unfoldable pub no_retry : RetryPolicy
no_retry = record {
  max_attempts = 1;
  base_backoff = from_millis 0;
  retryable_status_codes = [];
  retry_transport_errors = false;
}

unfoldable pub contains_code : List ℕ → ℕ → Bool
contains_code [] code = false
contains_code (c ∷ cs) code = c == code || contains_code cs code

unfoldable pub is_retryable : RetryPolicy → ProxyError → Bool
is_retryable policy (backend _) = policy.retry_transport_errors
is_retryable policy (timeout _) = policy.retry_transport_errors
is_retryable policy (upstream_s3 code _ _ _) = contains_code policy.retryable_status_codes code
is_retryable policy _ = false

unfoldable pub backoff_duration : (base attempt : ℕ) → ℕ
unfolding saturating_mul
backoff_duration base attempt = saturating_mul base (2 ^ min attempt 10)

-- What a call of `with_retry` has returned, and the durations that it has slept, in order.
pub record Run (T : Type 0) : Type 0 where
  pub result : Result ProxyError T
  pub slept : List ℕ

module _ {T : Type 0} (policy : RetryPolicy) (f : ℕ → Result ProxyError T) where
  -- `for attempt in attempt..=max`, with `rounds` of them left.
  unfoldable pub retry_loop : (max rounds attempt : ℕ) (last_err : Option ProxyError) → Run T
  retry_loop max zero attempt none = record { result = err internal; slept = [] }
  retry_loop max zero attempt (some e) = record { result = err e; slept = [] }
  retry_loop max (suc rounds) attempt last_err = elim (f attempt) [
    | ok result ↦ record { result = ok result; slept = [] }
    | err e ↦
        let attempts_remaining = max - attempt in
        elim (not (is_retryable policy e) || attempts_remaining == 0) [
          | true ↦ record { result = err e; slept = [] }
          | false ↦
              let delay = backoff_duration policy.base_backoff (attempt - 1) in
              let run = retry_loop max rounds (attempt + 1) (some e) in
              record { result = run.result; slept = delay ∷ run.slept }
        ]
  ]

  unfoldable pub with_retry : Run T
  unfolding retry_loop
  with_retry = let top = max policy.max_attempts 1 in retry_loop top top 1 none
