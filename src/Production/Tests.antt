-- ===== src/Production/Tests.antt =====
-- The lifecycle and the limiter at concrete values.
use shard_log.Prelude.{
  ℕ, zero, suc, ◌+◌, ◌*◌, ◌-◌, ◌≤◌, ◌≡◌, refl, ◌≢◌, ◌↔◌, ◌⊎◌, true, false, Option, none, some, List,
  [], ◌∷◌, arith, leb, if◌then◌else◌,
}
use shard_log.Production.Lifecycle.{
  ServiceLifecycle, ready, draining, stopping, failed, new_lifecycle, mark_ready, accepts_ingest,
}
use shard_log.Production.LifecycleSteps.{
  Shared, Steps, done, next, mark, call_all, call_ready, call_shutdown, accepts_ingest-Steps,
  mark_failed-lost, call_all-failed,
}
use shard_log.Production.Rate.{
  IngestRateLimiter, new_limiter, try_acquire, acquire_all, refill, generated,
}
use shard_log.Outcome.{ok}
use shard_log.Production.Config.{SingleTenantConfig, validate}
use shard_log.Production.Admission.{
  Semaphores, ProductionRuntime, no_metrics, new_runtime, try_http, try_ingest, admission_in_flight,
  add_u64,
}
use shard_log.Production.AdmissionLaws.{
  IsSound, validate-IsSound, Held, Reaches, start, http, admission_in_flight-Reaches,
  try_ingest_outcome,
}
use shard_log.Production.RateBound.{acquire_all-le, try_acquire-waited}

abbrev draining_service : Shared
draining_service = record {
  lifecycle = record { state = draining; failure = none; shutdown = false };
  stopping_callers = 0;
  failing_callers = 0;
}

abbrev after_mark : Shared
after_mark = record draining_service { lifecycle = mark_ready draining_service.lifecycle }

accepts_ingest-Steps_example : accepts_ingest after_mark.lifecycle ≡ false
accepts_ingest-Steps_example =
    accepts_ingest-Steps {t = draining_service} {t' = after_mark} (next (mark refl) done)
      (omega arith)

ready_accepts : accepts_ingest (mark_ready new_lifecycle) ≡ true
unfolding accepts_ingest mark_ready
ready_accepts = refl

mark_failed-lost_example : Steps draining_service (record draining_service {
  lifecycle = record { state = stopping; failure = some "disk"; shutdown = false };
})
mark_failed-lost_example = mark_failed-lost draining_service "disk" false (λ e. cc)

abbrev failed_service : ServiceLifecycle
failed_service = record { state = failed; failure = some "disk"; shutdown = false }

call_all-failed_example :
    ((call_all (call_ready ∷ call_shutdown true ∷ []) failed_service).state ≡ failed)
    × ((call_all (call_ready ∷ call_shutdown true ∷ []) failed_service).failure ≢ none)
call_all-failed_example =
    call_all-failed (call_ready ∷ call_shutdown true ∷ []) failed_service refl (λ e. cc)

-- A thousand bytes in a second, a hundred at once: the second call is refused, the third is not.
abbrev three_calls : List (ℕ × ℕ)
three_calls = (5, 100) ∷ (6, 50) ∷ (60000005, 50) ∷ []

three_calls_taken : (acquire_all (new_limiter 1000 100 5) three_calls).1 ≡ 150
unfolding acquire_all try_acquire refill generated new_limiter
three_calls_taken = refl

acquire_all-le_example :
    (acquire_all (new_limiter 1000 100 5) three_calls).1 * 1000000000
    ≤ 100 * 1000000000 + (60000005 - 5) * 1000
acquire_all-le_example =
    acquire_all-le 1000 100 5 60000005 three_calls (omega arith) (omega arith) (omega arith)

abbrev empty_limiter : IngestRateLimiter
empty_limiter = record {
  bytes_per_second = 1000;
  burst_bytes = 100;
  tokens = 0;
  remainder = 0;
  updated = 0;
}

try_acquire-waited_example : (try_acquire empty_limiter 50000000 50).1 ≡ true
try_acquire-waited_example =
    try_acquire-waited empty_limiter 50000000 50 (omega arith) (omega arith) (omega arith)

abbrev take_one : ℕ → Option ℕ
take_one zero = none
take_one (suc n) = some n

take_one-some : (n n' : ℕ) → take_one n ≡ some n' → n ≡ n' + 1
take_one-some zero n' h = cc
take_one-some (suc n) n' h = ground arith

take_one-none : (n : ℕ) → take_one n ≡ none → n ≡ 0
take_one-none zero h = refl
take_one-none (suc n) h = cc

-- A semaphore as the count of its free permits.
abbrev counting : Semaphores
counting = record {
  Semaphore = ℕ;
  max_permits = 100;
  new = λ n. if leb n 100 then some n else none;
  new-some = λ n small. ground arith;
  available = λ n. n;
  try_acquire_owned = take_one;
  release = λ n. n + 1;
  available-new = λ n s e. ground arith;
  available-acquired = take_one-some;
  available-refused = take_one-none;
  available-release = λ n. refl;
}

abbrev sixteen : List ℕ
sixteen = 1 ∷ 2 ∷ 3 ∷ 4 ∷ 5 ∷ 6 ∷ 7 ∷ 8 ∷ 9 ∷ 10 ∷ 11 ∷ 12 ∷ 13 ∷ 14 ∷ 15 ∷ 16 ∷ []

abbrev small_config : SingleTenantConfig
small_config = record {
  tenant = b'a' ∷ [];
  bearer_token = sixteen;
  max_http_in_flight = 2;
  max_ingest_in_flight = 1;
  max_query_in_flight = 1;
  ingest_bytes_per_second = 1000;
  ingest_burst_bytes = 100;
  max_tail_subscribers = 1;
  max_native_connections = 1;
  query_timeout = 1000;
  native_auth_timeout = 1000;
}

validate-IsSound_example : (validate small_config ≡ ok tt) ↔ IsSound small_config
validate-IsSound_example = validate-IsSound small_config

abbrev small_runtime : ProductionRuntime counting
small_runtime = record {
  config = small_config;
  lifecycle = new_lifecycle;
  http = 2;
  ingest = 1;
  query = 1;
  tail = 1;
  native_connections = 1;
  rate = new_limiter 1000 100 5;
  metrics = no_metrics;
}

small_runtime_starts : new_runtime counting small_config new_lifecycle 5 ≡ some (ok small_runtime)
unfolding new_runtime validate
small_runtime_starts = refl

abbrev after_http : ProductionRuntime counting
after_http = record small_runtime { http = 1; metrics = record no_metrics { http_requests = 1 } }

abbrev one_http : Held
one_http = record { http = 1; ingest = 0; query = 0; tail = 0; connections = 0 }

after_http_reached : Reaches counting after_http one_http
unfolding try_http
after_http_reached = http (start small_config new_lifecycle 5 small_runtime_starts)

admission_in_flight-Reaches_example :
    (admission_in_flight counting after_http ≡ (1, 0, 0, 0, 0))
    × (1 ≤ 2)
    × (0 ≤ 1)
    × (0 ≤ 1)
    × (0 ≤ 1)
    × (0 ≤ 1)
admission_in_flight-Reaches_example = admission_in_flight-Reaches counting after_http_reached

abbrev ready_runtime : ProductionRuntime counting
ready_runtime = record small_runtime {
  lifecycle = record { state = ready; failure = none; shutdown = false };
}

ready_ingest : (try_ingest counting ready_runtime 6 40).1 ≡ true
unfolding try_ingest accepts_ingest try_acquire refill generated new_limiter
ready_ingest = refl

try_ingest_outcome_example :
    (((try_ingest counting ready_runtime 6 40).1 ≡ true)
      × (ready_runtime.lifecycle.state ≡ ready)
      × ((try_acquire ready_runtime.rate 6 40).1 ≡ true)
      × (1 ≡ (try_ingest counting ready_runtime 6 40).0.ingest + 1)
      × ((try_ingest counting ready_runtime 6 40).0.metrics ≡ no_metrics))
    ⊎ (((try_ingest counting ready_runtime 6 40).1 ≡ false)
        × ((try_ingest counting ready_runtime 6 40).0.ingest ≡ 1)
        × ((try_ingest counting ready_runtime 6 40).0.metrics.rejected_requests ≡ add_u64 0 1))
try_ingest_outcome_example = try_ingest_outcome counting ready_runtime 6 40
