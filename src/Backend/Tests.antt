-- ===== src/Backend/Tests.antt =====
-- Runs of the retry loop (src/backend/retry.rs).
use tiny_s3_proxy.Backend.Retry.Attempts.{
  IsRun, with_retry_write_transport, backoff_duration-suc, with_retry-IsRun,
}
use tiny_s3_proxy.Backend.Retry.{with_retry, for_reads, backoff_duration, for_writes, duration_max}
use tiny_s3_proxy.Text.{codes}
use tiny_s3_proxy.Prelude.{
  Result, [], err, if◌then◌else◌, inr, ltb, min, ok, refl, ℕ, ◌*◌, ◌==◌, ◌∷◌, ◌≡◌,
}
use tiny_s3_proxy.Error.{upstream_s3, timeout, ProxyError}

abbrev unavailable : ProxyError
unavailable = upstream_s3 503 (codes "SlowDown") [] (codes "GetObject")

-- Two attempts fail, the third succeeds.
abbrev third_time : ℕ → Result ProxyError ℕ
third_time n = if ltb n 3 then err unavailable else ok 7

abbrev times_out : ℕ → Result ProxyError ℕ
times_out n = if n == 1 then err (timeout (codes "PutObject")) else ok 7

with_retry-third_time :
    with_retry (for_reads 4 100) third_time
    ≡ record { result = ok 7; slept = 100000000 ∷ 200000000 ∷ [] }
unfolding with_retry for_reads tiny_s3_proxy.Backend.Retry.is_retryable
    tiny_s3_proxy.Backend.Retry.contains_code backoff_duration
with_retry-third_time = refl

with_retry-IsRun_example :
    IsRun (for_reads 4 100) third_time 1 4 (with_retry (for_reads 4 100) third_time)
unfolding for_reads
with_retry-IsRun_example = with_retry-IsRun (for_reads 4 100) third_time

with_retry_write_transport_example :
    with_retry (for_writes 4 100) times_out
    ≡ record { result = err (timeout (codes "PutObject")); slept = [] }
with_retry_write_transport_example =
    with_retry_write_transport 4 100 times_out (timeout (codes "PutObject")) refl
      (inr (codes "PutObject", refl))

backoff_duration-suc_example :
    backoff_duration 100 3 ≡ min (2 * backoff_duration 100 2) duration_max
backoff_duration-suc_example = backoff_duration-suc 100 2
