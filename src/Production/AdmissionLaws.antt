-- ===== src/Production/AdmissionLaws.antt =====
-- What the admission of src/production.rs promises: bounded concurrency, whatever calls come in
-- whatever order, and no ingest request outside readiness.
use shard_log.Prelude.{
  ℕ, ◌+◌, ◌-◌, ◌≤◌, ◌<◌, ◌≡◌, ◌⊎◌, ◌↔◌, inl, inr, refl, Bool, true, false, List, none, some, [],
  length, arith, Option-cases, Bool-cases, if◌then◌else◌, ◌≢◌, nat_eq,
}
use shard_log.Outcome.{ok}
use shard_log.Production.Lifecycle.{
  ServiceLifecycle, ready, accepts_ingest, ServiceState, is_ready, starting, draining, stopping,
  failed,
}
use shard_log.SinkJournal.Journal.{Blake3}
use shard_log.Production.Rate.{try_acquire}
use shard_log.Production.Config.{SingleTenantConfig, validate}
use shard_log.Production.Admission.{
  Semaphores, ProductionRuntime, new_runtime, refuse, try_http, try_ingest, try_query, try_tail,
  try_native_connection, admission_in_flight, add_u64, runtime_authenticates,
  record_authentication_failure, record_ingest, record_query,
}

-- A configuration that the runtime may serve with.
pub record IsSound (c : SingleTenantConfig) : Type 0 where
  pub tenant : c.tenant ≢ []
  pub long_token : 16 ≤ length c.bearer_token
  pub short_token : length c.bearer_token ≤ 4096
  pub ingest : (0 < c.max_ingest_in_flight) × (c.max_ingest_in_flight ≤ c.max_http_in_flight)
  pub query : (0 < c.max_query_in_flight) × (c.max_query_in_flight ≤ c.max_http_in_flight)
  pub tail : 0 < c.max_tail_subscribers
  pub native : 0 < c.max_native_connections
  pub rate : 0 < c.ingest_bytes_per_second → 0 < c.ingest_burst_bytes
  pub timeouts : (0 < c.query_timeout) × (0 < c.native_auth_timeout)

-- `validate` accepts exactly the sound configurations.
pub validate-IsSound : (c : SingleTenantConfig) → (validate c ≡ ok tt) ↔ IsSound c
unfolding validate
validate-IsSound c = (
  λ valid. record {
    tenant = λ e. absurd (ground arith);
    long_token = ground arith;
    short_token = ground arith;
    ingest = ground arith;
    query = ground arith;
    tail = ground arith;
    native = ground arith;
    rate = λ on. ground arith;
    timeouts = ground arith;
  },
  λ sound. ground (arith, sound.tenant, sound.rate),
)

-- The permits that callers hold.
pub record Held : Type 0 where
  pub http : ℕ
  pub ingest : ℕ
  pub query : ℕ
  pub tail : ℕ
  pub connections : ℕ

abbrev pub no_permits : Held
no_permits = record { http = 0; ingest = 0; query = 0; tail = 0; connections = 0 }

abbrev pub more : ℕ → Bool → ℕ
more n granted = if granted then n + 1 else n

module _ (s : Semaphores) where
  -- What calls, drops of permits and changes of the lifecycle lead to, in any order.
  pub data Reaches : ProductionRuntime s → Held → Type 0 where
    start :
        {r : ProductionRuntime s} (c : SingleTenantConfig) (l : ServiceLifecycle) (now : ℕ)
        → new_runtime s c l now ≡ some (ok r)
        → Reaches r no_permits
    lifecycle :
        {r : ProductionRuntime s} {h : Held} (l : ServiceLifecycle)
        → Reaches r h
        → Reaches (record r { lifecycle = l }) h
    http :
        {r : ProductionRuntime s} {h : Held}
        → Reaches r h
        → Reaches (try_http s r).0 (record h { http = more h.http (try_http s r).1 })
    ingest :
        {r : ProductionRuntime s} {h : Held} (now source_bytes : ℕ)
        → Reaches r h
        → Reaches
            (try_ingest s r now source_bytes).0
            (record h { ingest = more h.ingest (try_ingest s r now source_bytes).1 })
    query :
        {r : ProductionRuntime s} {h : Held}
        → Reaches r h
        → Reaches (try_query s r).0 (record h { query = more h.query (try_query s r).1 })
    tail :
        {r : ProductionRuntime s} {h : Held}
        → Reaches r h
        → Reaches (try_tail s r).0 (record h { tail = more h.tail (try_tail s r).1 })
    connection :
        {r : ProductionRuntime s} {h : Held}
        → Reaches r h
        → Reaches
            (try_native_connection s r).0
            (record h { connections = more h.connections (try_native_connection s r).1 })
    authentication :
        {r : ProductionRuntime s} {h : Held} (b : Blake3) (observed : List ℕ)
        → Reaches r h
        → Reaches (runtime_authenticates s b r observed).0 h
    authentication_failure :
        {r : ProductionRuntime s} {h : Held}
        → Reaches r h
        → Reaches (record_authentication_failure s r) h
    ingest_recorded :
        {r : ProductionRuntime s} {h : Held} (source_bytes records : ℕ)
        → Reaches r h
        → Reaches (record_ingest s r source_bytes records) h
    query_recorded :
        {r : ProductionRuntime s} {h : Held} → Reaches r h → Reaches (record_query s r) h
    rejection : {r : ProductionRuntime s} {h : Held} → Reaches r h → Reaches (refuse s r) h
    drop_http :
        {r : ProductionRuntime s} {h : Held}
        → Reaches r h
        → 0 < h.http
        → Reaches (record r { http = s.release r.http }) (record h { http = h.http - 1 })
    drop_ingest :
        {r : ProductionRuntime s} {h : Held}
        → Reaches r h
        → 0 < h.ingest
        → Reaches (record r { ingest = s.release r.ingest }) (record h { ingest = h.ingest - 1 })
    drop_query :
        {r : ProductionRuntime s} {h : Held}
        → Reaches r h
        → 0 < h.query
        → Reaches (record r { query = s.release r.query }) (record h { query = h.query - 1 })
    drop_tail :
        {r : ProductionRuntime s} {h : Held}
        → Reaches r h
        → 0 < h.tail
        → Reaches (record r { tail = s.release r.tail }) (record h { tail = h.tail - 1 })
    drop_connection :
        {r : ProductionRuntime s} {h : Held}
        → Reaches r h
        → 0 < h.connections
        → Reaches
            (record r { native_connections = s.release r.native_connections })
            (record h { connections = h.connections - 1 })

  -- Every permit is free or held.
  abbrev Accounted : ProductionRuntime s → Held → Type 0
  Accounted r h =
      (s.available r.http + h.http ≡ r.config.max_http_in_flight)
      × (s.available r.ingest + h.ingest ≡ r.config.max_ingest_in_flight)
      × (s.available r.query + h.query ≡ r.config.max_query_in_flight)
      × (s.available r.tail + h.tail ≡ r.config.max_tail_subscribers)
      × (s.available r.native_connections + h.connections ≡ r.config.max_native_connections)

  new-cases :
      (n : ℕ) → (s.new n ≡ none) ⊎ ((x : s.Semaphore) × (s.new n ≡ some x) × (s.available x ≡ n))
  new-cases n = elim (Option-cases (s.new n)) [
    | inl e ↦ inl e
    | inr (x, e) ↦ inr (x, e, s.available-new n x e)
  ]

  new_runtime-Accounted :
      (r : ProductionRuntime s) (c : SingleTenantConfig) (l : ServiceLifecycle) (now : ℕ)
      → new_runtime s c l now ≡ some (ok r)
      → Accounted r no_permits
  unfolding new_runtime
  new_runtime-Accounted r c l now e = elim (new-cases c.max_http_in_flight) [
    | inl x_none ↦ absurd (ground arith)
    | inr (x, x_some, x_free) ↦ elim (new-cases c.max_ingest_in_flight) [
      | inl y_none ↦ absurd (ground arith)
      | inr (y, y_some, y_free) ↦ elim (new-cases c.max_query_in_flight) [
        | inl z_none ↦ absurd (ground arith)
        | inr (z, z_some, z_free) ↦ elim (new-cases c.max_tail_subscribers) [
          | inl v_none ↦ absurd (ground arith)
          | inr (v, v_some, v_free) ↦ elim (new-cases c.max_native_connections) [
            | inl w_none ↦ absurd (ground arith)
            | inr (w, w_some, w_free) ↦ ground arith
          ]
        ]
      ]
    ]
  ]

  Reaches-Accounted : {r : ProductionRuntime s} {h : Held} → Reaches r h → Accounted r h
  unfolding new_runtime try_http try_ingest try_query try_tail try_native_connection refuse
      runtime_authenticates record_authentication_failure record_ingest record_query
  Reaches-Accounted (start {r} c l now e) = new_runtime-Accounted r c l now e
  Reaches-Accounted (lifecycle l before) = Reaches-Accounted before
  Reaches-Accounted (http {r} before) = elim (Option-cases (s.try_acquire_owned r.http)) [
    | inl e ↦ ground (arith, Reaches-Accounted before)
    | inr (next, e) ↦ ground (arith, Reaches-Accounted before, s.available-acquired r.http next e)
  ]
  Reaches-Accounted (ingest {r} now n before) = elim (Option-cases (s.try_acquire_owned r.ingest)) [
    | inl e ↦ ground (arith, Reaches-Accounted before)
    | inr (next, e) ↦ ground (arith, Reaches-Accounted before, s.available-acquired r.ingest next e)
  ]
  Reaches-Accounted (query {r} before) = elim (Option-cases (s.try_acquire_owned r.query)) [
    | inl e ↦ ground (arith, Reaches-Accounted before)
    | inr (next, e) ↦ ground (arith, Reaches-Accounted before, s.available-acquired r.query next e)
  ]
  Reaches-Accounted (tail {r} before) = elim (Option-cases (s.try_acquire_owned r.tail)) [
    | inl e ↦ ground (arith, Reaches-Accounted before)
    | inr (next, e) ↦ ground (arith, Reaches-Accounted before, s.available-acquired r.tail next e)
  ]
  Reaches-Accounted (connection {r} before) =
      elim (Option-cases (s.try_acquire_owned r.native_connections)) [
        | inl e ↦ ground (arith, Reaches-Accounted before)
        | inr (next, e) ↦
            ground
              (arith, Reaches-Accounted before, s.available-acquired r.native_connections next e)
      ]
  Reaches-Accounted (authentication {r} b observed before) =
      ground (arith, Reaches-Accounted before)
  Reaches-Accounted (authentication_failure before) = Reaches-Accounted before
  Reaches-Accounted (ingest_recorded source_bytes records before) = Reaches-Accounted before
  Reaches-Accounted (query_recorded before) = Reaches-Accounted before
  Reaches-Accounted (rejection before) = Reaches-Accounted before
  Reaches-Accounted (drop_http {r} before some_held) =
      omega (arith, Reaches-Accounted before, s.available-release r.http)
  Reaches-Accounted (drop_ingest {r} before some_held) =
      omega (arith, Reaches-Accounted before, s.available-release r.ingest)
  Reaches-Accounted (drop_query {r} before some_held) =
      omega (arith, Reaches-Accounted before, s.available-release r.query)
  Reaches-Accounted (drop_tail {r} before some_held) =
      omega (arith, Reaches-Accounted before, s.available-release r.tail)
  Reaches-Accounted (drop_connection {r} before some_held) =
      omega (arith, Reaches-Accounted before, s.available-release r.native_connections)

  -- Whatever calls of a runtime came since it was made, permits were dropped and the lifecycle did, `admission_in_flight` counts the
  -- permits that callers hold, and none of the five numbers exceeds its configured limit.
  pub admission_in_flight-Reaches :
      {r : ProductionRuntime s} {h : Held}
      → Reaches r h
      → (admission_in_flight s r ≡ (h.http, h.ingest, h.query, h.tail, h.connections))
        × (h.http ≤ r.config.max_http_in_flight)
        × (h.ingest ≤ r.config.max_ingest_in_flight)
        × (h.query ≤ r.config.max_query_in_flight)
        × (h.tail ≤ r.config.max_tail_subscribers)
        × (h.connections ≤ r.config.max_native_connections)
  unfolding admission_in_flight
  admission_in_flight-Reaches reached =
      let all = Reaches-Accounted reached in
      (
        ground (arith, all),
        omega (arith, all.0),
        omega (arith, all.1),
        omega (arith, all.2),
        omega (arith, all.3),
        omega (arith, all.4),
      )

  -- An ingest request gets a permit only of a service that is ready, within the rate, and then nothing
  -- is counted as rejected. A request that gets none is counted as rejected, and takes no permit.
  pub try_ingest_outcome :
      (r : ProductionRuntime s) (now source_bytes : ℕ)
      → (((try_ingest s r now source_bytes).1 ≡ true)
          × (r.lifecycle.state ≡ ready)
          × ((try_acquire r.rate now source_bytes).1 ≡ true)
          × (s.available r.ingest ≡ s.available (try_ingest s r now source_bytes).0.ingest + 1)
          × ((try_ingest s r now source_bytes).0.metrics ≡ r.metrics))
        ⊎ (((try_ingest s r now source_bytes).1 ≡ false)
            × ((try_ingest s r now source_bytes).0.ingest ≡ r.ingest)
            × ((try_ingest s r now source_bytes).0.metrics.rejected_requests
                ≡ add_u64 r.metrics.rejected_requests 1))
  unfolding try_ingest refuse
  try_ingest_outcome r now source_bytes = elim (Bool-cases (accepts_ingest r.lifecycle)) [
    | inr closed ↦ inr (rw closed (refl, refl, refl))
    | inl open_service ↦ elim (Bool-cases (try_acquire r.rate now source_bytes).1) [
      | inr fast ↦ inr (rw (open_service, fast) (refl, refl, refl))
      | inl in_rate ↦ elim (Option-cases (s.try_acquire_owned r.ingest)) [
        | inl e ↦ inr (rw (open_service, in_rate, e) (refl, refl, refl))
        | inr (next, e) ↦ inl (
          rw (open_service, in_rate, e) refl,
          is_ready-eq r.lifecycle.state (unfold accepts_ingest in open_service),
          in_rate,
          rw (open_service, in_rate, e) (s.available-acquired r.ingest next e),
          rw (open_service, in_rate, e) refl,
        )
      ]
    ]
  ]
    where
      is_ready-eq : (state : ServiceState) → is_ready state ≡ true → state ≡ ready
      is_ready-eq starting h = cc
      is_ready-eq ready h = refl
      is_ready-eq draining h = cc
      is_ready-eq stopping h = cc
      is_ready-eq failed h = cc
