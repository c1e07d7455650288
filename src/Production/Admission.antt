-- ===== src/Production/Admission.antt =====
-- `ProductionRuntime` of src/production.rs: what it admits. The semaphores of tokio are a parameter:
-- the number of free permits, which an acquisition lowers by one if there is one, and which the drop of
-- a permit raises by one. `Semaphore::new` panics above `MAX_PERMITS`, which is a `none` here. Counters are u64 and wrap.
use shard_log.Prelude.{
  ℕ, ◌+◌, ◌-◌, ◌%◌, ◌^◌, ◌≡◌, ◌≢◌, ◌≤◌, Bool, true, false, not, Option, none, some, String, List,
  min, if◌then◌else◌,
}
use shard_log.Outcome.{Result, ok, err}
use shard_log.SinkJournal.Journal.{Blake3}
use shard_log.Production.Lifecycle.{
  ServiceState, starting, ready, draining, stopping, failed, ServiceLifecycle, accepts_ingest,
}
use shard_log.Production.Rate.{IngestRateLimiter, new_limiter, try_acquire, u64_max}
use shard_log.Production.Config.{SingleTenantConfig, validate, authenticates}

pub record Semaphores : Type 1 where
  pub Semaphore : Type 0
  pub max_permits : ℕ
  pub new : ℕ → Option Semaphore
  pub available : Semaphore → ℕ
  pub try_acquire_owned : Semaphore → Option Semaphore
  pub release : Semaphore → Semaphore
  pub new-some : (n : ℕ) → n ≤ max_permits → new n ≢ none
  pub available-new : (n : ℕ) (s : Semaphore) → new n ≡ some s → available s ≡ n
  pub available-acquired :
      (s s' : Semaphore) → try_acquire_owned s ≡ some s' → available s ≡ available s' + 1
  pub available-refused : (s : Semaphore) → try_acquire_owned s ≡ none → available s ≡ 0
  pub available-release : (s : Semaphore) → available (release s) ≡ available s + 1

pub record ProductionMetrics : Type 0 where
  pub http_requests : ℕ
  pub authentication_failures : ℕ
  pub rejected_requests : ℕ
  pub ingest_requests : ℕ
  pub ingest_bytes : ℕ
  pub ingest_records : ℕ
  pub query_requests : ℕ
  pub native_connections : ℕ
  pub tail_subscriptions : ℕ

abbrev pub no_metrics : ProductionMetrics
no_metrics = record {
  http_requests = 0;
  authentication_failures = 0;
  rejected_requests = 0;
  ingest_requests = 0;
  ingest_bytes = 0;
  ingest_records = 0;
  query_requests = 0;
  native_connections = 0;
  tail_subscriptions = 0;
}

-- `fetch_add`
abbrev pub add_u64 : ℕ → ℕ → ℕ
add_u64 a b = (a + b) % 2 ^ 64

module _ (s : Semaphores) where
  pub record ProductionRuntime : Type 0 where
    pub config : SingleTenantConfig
    pub lifecycle : ServiceLifecycle
    pub http : s.Semaphore
    pub ingest : s.Semaphore
    pub query : s.Semaphore
    pub tail : s.Semaphore
    pub native_connections : s.Semaphore
    pub rate : IngestRateLimiter
    pub metrics : ProductionMetrics

  unfoldable pub new_runtime :
      SingleTenantConfig → ServiceLifecycle → ℕ → Option (Result String ProductionRuntime)
  new_runtime config lifecycle now = elim (validate config) [
    | err e ↦ some (err e)
    | ok valid ↦ elim (s.new config.max_http_in_flight) [
      | none ↦ none
      | some http ↦ elim (s.new config.max_ingest_in_flight) [
        | none ↦ none
        | some ingest ↦ elim (s.new config.max_query_in_flight) [
          | none ↦ none
          | some query ↦ elim (s.new config.max_tail_subscribers) [
            | none ↦ none
            | some tail ↦ elim (s.new config.max_native_connections) [
              | none ↦ none
              | some connections ↦ some (
                  ok (record {
                    config = config;
                    lifecycle = lifecycle;
                    http = http;
                    ingest = ingest;
                    query = query;
                    tail = tail;
                    native_connections = connections;
                    rate = new_limiter config.ingest_bytes_per_second config.ingest_burst_bytes now;
                    metrics = no_metrics;
                  }))
            ]
          ]
        ]
      ]
    ]
  ]

  unfoldable pub refuse : ProductionRuntime → ProductionRuntime
  refuse r = record r {
    metrics = record r.metrics { rejected_requests = add_u64 r.metrics.rejected_requests 1 };
  }

  -- The runtime after a call, and whether it returns a permit.
  abbrev pub Admitted : Type 0
  Admitted = ProductionRuntime × Bool

  unfoldable pub record_authentication_failure : ProductionRuntime → ProductionRuntime
  record_authentication_failure r = record r {
    metrics = record r.metrics {
      authentication_failures = add_u64 r.metrics.authentication_failures 1;
    };
  }

  unfoldable pub runtime_authenticates : Blake3 → ProductionRuntime → List ℕ → Admitted
  unfolding record_authentication_failure
  runtime_authenticates b r observed =
      if authenticates b r.config observed
      then (r, true)
      else (record_authentication_failure r, false)

  unfoldable pub try_http : ProductionRuntime → Admitted
  unfolding refuse
  try_http r = elim (s.try_acquire_owned r.http) [
    | none ↦ (refuse r, false)
    | some http ↦ (
      record r {
        http = http;
        metrics = record r.metrics { http_requests = add_u64 r.metrics.http_requests 1 };
      },
      true,
    )
  ]

  -- The rate is asked only if the lifecycle accepts an ingest request.
  unfoldable pub try_ingest : ProductionRuntime → ℕ → ℕ → Admitted
  unfolding refuse
  try_ingest r now source_bytes =
      if not (accepts_ingest r.lifecycle)
      then (refuse r, false)
      else (let (rate, in_rate) = try_acquire r.rate now source_bytes in
          let r' = record r { rate = rate } in
          if not in_rate then (refuse r', false) else elim (s.try_acquire_owned r'.ingest) [
            | none ↦ (refuse r', false)
            | some ingest ↦ (record r' { ingest = ingest }, true)
          ])

  abbrev pub refuses_query : ServiceState → Bool
  refuses_query starting = true
  refuses_query ready = false
  refuses_query draining = false
  refuses_query stopping = true
  refuses_query failed = true

  unfoldable pub try_query : ProductionRuntime → Admitted
  unfolding refuse
  try_query r =
      if refuses_query r.lifecycle.state
      then (refuse r, false)
      else elim (s.try_acquire_owned r.query) [
        | none ↦ (refuse r, false)
        | some query ↦ (record r { query = query }, true)
      ]

  unfoldable pub try_tail : ProductionRuntime → Admitted
  unfolding refuse
  try_tail r = elim (s.try_acquire_owned r.tail) [
    | none ↦ (refuse r, false)
    | some tail ↦ (
      record r {
        tail = tail;
        metrics = record r.metrics { tail_subscriptions = add_u64 r.metrics.tail_subscriptions 1 };
      },
      true,
    )
  ]

  unfoldable pub try_native_connection : ProductionRuntime → Admitted
  unfolding refuse
  try_native_connection r = elim (s.try_acquire_owned r.native_connections) [
    | none ↦ (refuse r, false)
    | some connections ↦ (
      record r {
        native_connections = connections;
        metrics = record r.metrics { native_connections = add_u64 r.metrics.native_connections 1 };
      },
      true,
    )
  ]

  unfoldable pub record_ingest : ProductionRuntime → ℕ → ℕ → ProductionRuntime
  record_ingest r source_bytes records = record r {
    metrics = record r.metrics {
      ingest_requests = add_u64 r.metrics.ingest_requests 1;
      ingest_bytes = add_u64 r.metrics.ingest_bytes (min source_bytes u64_max);
      ingest_records = add_u64 r.metrics.ingest_records (min records u64_max);
    };
  }

  unfoldable pub record_query : ProductionRuntime → ProductionRuntime
  record_query r = record r {
    metrics = record r.metrics { query_requests = add_u64 r.metrics.query_requests 1 };
  }

  -- `admission_in_flight`: HTTP, ingest, query, tail and native connections.
  unfoldable pub admission_in_flight : ProductionRuntime → ℕ × ℕ × ℕ × ℕ × ℕ
  admission_in_flight r = (
    r.config.max_http_in_flight - s.available r.http,
    r.config.max_ingest_in_flight - s.available r.ingest,
    r.config.max_query_in_flight - s.available r.query,
    r.config.max_tail_subscribers - s.available r.tail,
    r.config.max_native_connections - s.available r.native_connections,
  )
