-- ===== src/Production/LifecycleSteps.antt =====
-- The lifecycle of src/production.rs under any interleaving of its callers. An atomic exchange is one
-- step. `request_shutdown` loads the state and stores it in another step, and `mark_failed` writes the
-- reason and stores the state in another step.
use shard_log.Prelude.{
  ℕ, Bool, ◌+◌, ◌≤◌, ◌≡◌, refl, ◌≢◌, false, none, some, String, arith, List, [], ◌∷◌, ap,
}
use shard_log.Production.Lifecycle.{
  ServiceState, starting, ready, draining, stopping, failed, ServiceLifecycle, mark_ready, readied,
  drained, stopped, is_ready, sent, begin_draining, request_shutdown, mark_failed, accepts_ingest,
}

-- The shared values, the callers of `request_shutdown` that loaded a state other than failed and have
-- not stored yet, and the callers of `mark_failed` that have not stored yet.
pub record Shared : Type 0 where
  pub lifecycle : ServiceLifecycle
  pub stopping_callers : ℕ
  pub failing_callers : ℕ

abbrev pub in_state : ServiceState → ServiceLifecycle → ServiceLifecycle
in_state s l = record l { state = s }

pub data Step (t t' : Shared) : Type 0 where
  mark : t' ≡ record t { lifecycle = mark_ready t.lifecycle } → Step t t'
  drain : t' ≡ record t { lifecycle = begin_draining t.lifecycle } → Step t t'
  load_shutdown :
      t.lifecycle.state ≢ failed
      → t' ≡ record t { stopping_callers = t.stopping_callers + 1 }
      → Step t t'
  store_shutdown :
      (k : ℕ)
      → t.stopping_callers ≡ k + 1
      → t' ≡ record t { lifecycle = in_state stopping t.lifecycle; stopping_callers = k }
      → Step t t'
  send_shutdown :
      (received : Bool)
      → t' ≡ record t {
        lifecycle = record t.lifecycle { shutdown = sent received t.lifecycle.shutdown };
      }
      → Step t t'
  write_reason :
      (reason : String)
      → t' ≡ record t {
        lifecycle = record t.lifecycle { failure = some reason };
        failing_callers = t.failing_callers + 1;
      }
      → Step t t'
  store_failed :
      (k : ℕ)
      → t.failing_callers ≡ k + 1
      → t' ≡ record t { lifecycle = in_state failed t.lifecycle; failing_callers = k }
      → Step t t'

pub data Steps : Shared → Shared → Type 0 where
  done : {t : Shared} → Steps t t
  next : {t t' t'' : Shared} → Step t t' → Steps t' t'' → Steps t t''

-- How far the service has come.
abbrev pub rank : ServiceState → ℕ
rank starting = 0
rank ready = 1
rank draining = 2
rank stopping = 3
rank failed = 3

rank-le : (s : ServiceState) → rank s ≤ 3
rank-le starting = omega arith
rank-le ready = omega arith
rank-le draining = omega arith
rank-le stopping = omega arith
rank-le failed = omega arith

rank-readied : (s : ServiceState) → rank s ≤ rank (readied s)
rank-readied starting = omega arith
rank-readied ready = omega arith
rank-readied draining = omega arith
rank-readied stopping = omega arith
rank-readied failed = omega arith

rank-drained : (s : ServiceState) → rank s ≤ rank (drained s)
rank-drained starting = omega arith
rank-drained ready = omega arith
rank-drained draining = omega arith
rank-drained stopping = omega arith
rank-drained failed = omega arith

rank-Step : {t t' : Shared} → Step t t' → rank t.lifecycle.state ≤ rank t'.lifecycle.state
unfolding mark_ready begin_draining
rank-Step {t} (mark e) = rw e (rank-readied t.lifecycle.state)
rank-Step {t} (drain e) = rw e (rank-drained t.lifecycle.state)
rank-Step (load_shutdown h e) = rw e (omega arith)
rank-Step {t} (store_shutdown k h e) = rw e (rank-le t.lifecycle.state)
rank-Step (send_shutdown received e) = rw e (omega arith)
rank-Step (write_reason reason e) = rw e (omega arith)
rank-Step {t} (store_failed k h e) = rw e (rank-le t.lifecycle.state)

rank-Steps : {t t' : Shared} → Steps t t' → rank t.lifecycle.state ≤ rank t'.lifecycle.state
rank-Steps done = omega arith
rank-Steps (next s rest) = omega (arith, rank-Step s, rank-Steps rest)

is_ready-rank : (s : ServiceState) → 2 ≤ rank s → is_ready s ≡ false
is_ready-rank starting h = absurd (omega arith)
is_ready-rank ready h = absurd (omega arith)
is_ready-rank draining h = refl
is_ready-rank stopping h = refl
is_ready-rank failed h = refl

-- Once the service drains, stops or has failed, no interleaving of calls makes it accept an ingest
-- request again.
pub accepts_ingest-Steps :
    {t t' : Shared} → Steps t t' → 2 ≤ rank t.lifecycle.state → accepts_ingest t'.lifecycle ≡ false
unfolding accepts_ingest
accepts_ingest-Steps {t} {t'} steps h =
    is_ready-rank t'.lifecycle.state (omega (arith, rank-Steps steps))

-- In a service that has not failed, `mark_failed` can come between the load and the store of a
-- `request_shutdown`. Then the service is stopping, and no longer failed, with both calls returned and
-- the reason of the failure written, whether the shutdown is received or not.
pub mark_failed-lost :
    (t : Shared) (reason : String) (received : Bool)
    → t.lifecycle.state ≢ failed
    → Steps t (record t {
      lifecycle = record {
        state = stopping;
        failure = some reason;
        shutdown = sent received t.lifecycle.shutdown;
      };
    })
mark_failed-lost t reason received ok_state = next (load_shutdown ok_state refl) (
    next (write_reason reason refl) (
      next (store_failed t.failing_callers refl refl) (
        next (store_shutdown t.stopping_callers refl refl)
          (next (send_shutdown received refl) done))))

-- The calls of one caller alone, one after the other.
pub data Call : Type 0 where
  call_ready call_draining : Call
  call_shutdown : Bool → Call
  call_failed : String → Call

unfoldable pub call : Call → ServiceLifecycle → ServiceLifecycle
unfolding mark_ready begin_draining request_shutdown mark_failed
call call_ready l = mark_ready l
call call_draining l = begin_draining l
call (call_shutdown received) l = request_shutdown received l
call (call_failed reason) l = mark_failed reason l

unfoldable pub call_all : List Call → ServiceLifecycle → ServiceLifecycle
unfolding call
call_all [] l = l
call_all (c ∷ calls) l = call_all calls (call c l)

-- Without interleaving a failure stays: whatever calls follow one after the other, the service is
-- failed and has a reason.
pub call_all-failed :
    (calls : List Call) (l : ServiceLifecycle)
    → l.state ≡ failed
    → l.failure ≢ none
    → ((call_all calls l).state ≡ failed) × ((call_all calls l).failure ≢ none)
unfolding call_all
call_all-failed [] l is_failed reason = (is_failed, reason)
call_all-failed (call_ready ∷ calls) l is_failed reason =
    call_all-failed calls (mark_ready l) (unfold mark_ready in ap readied is_failed)
      (unfold mark_ready in reason)
call_all-failed (call_draining ∷ calls) l is_failed reason =
    call_all-failed calls (begin_draining l) (unfold begin_draining in ap drained is_failed)
      (unfold begin_draining in reason)
call_all-failed (call_shutdown received ∷ calls) l is_failed reason =
    call_all-failed calls (request_shutdown received l)
      (unfold request_shutdown in ap stopped is_failed) (unfold request_shutdown in reason)
call_all-failed (call_failed text ∷ calls) l is_failed reason =
    call_all-failed calls (mark_failed text l) (unfold mark_failed in refl)
      (unfold mark_failed in λ e. cc)
