-- ===== src/Production/Lifecycle.antt =====
-- `ServiceLifecycle` of src/production.rs: the state, the reason of a failure, and the value that the
-- shutdown channel holds, each operation as one caller alone sees it. Whether the `send` of tokio's watch
-- channel finds a receiver is an argument: without one it fails, and the channel keeps its value. The lock
-- of the reason is not poisoned. `begin_draining` repeats its exchange only if another thread came between.
use shard_log.Prelude.{Bool, true, false, Option, none, some, String}

pub data ServiceState : Type 0 where
  starting ready draining stopping failed : ServiceState

pub record ServiceLifecycle : Type 0 where
  pub state : ServiceState
  pub failure : Option String
  pub shutdown : Bool

abbrev pub new_lifecycle : ServiceLifecycle
new_lifecycle = record { state = starting; failure = none; shutdown = false }

-- `compare_exchange(Starting, Ready)`
abbrev pub readied : ServiceState → ServiceState
readied starting = ready
readied ready = ready
readied draining = draining
readied stopping = stopping
readied failed = failed

abbrev pub drained : ServiceState → ServiceState
drained starting = draining
drained ready = draining
drained draining = draining
drained stopping = stopping
drained failed = failed

abbrev pub stopped : ServiceState → ServiceState
stopped starting = stopping
stopped ready = stopping
stopped draining = stopping
stopped stopping = stopping
stopped failed = failed

unfoldable pub mark_ready : ServiceLifecycle → ServiceLifecycle
mark_ready l = record l { state = readied l.state }

unfoldable pub begin_draining : ServiceLifecycle → ServiceLifecycle
begin_draining l = record l { state = drained l.state }

-- `shutdown.send(true)`
abbrev pub sent : Bool → Bool → Bool
sent true value = true
sent false value = value

unfoldable pub request_shutdown : Bool → ServiceLifecycle → ServiceLifecycle
request_shutdown received l = record l {
  state = stopped l.state;
  shutdown = sent received l.shutdown;
}

unfoldable pub mark_failed : String → ServiceLifecycle → ServiceLifecycle
mark_failed reason l = record l { state = failed; failure = some reason }

abbrev pub is_ready : ServiceState → Bool
is_ready starting = false
is_ready ready = true
is_ready draining = false
is_ready stopping = false
is_ready failed = false

unfoldable pub accepts_ingest : ServiceLifecycle → Bool
accepts_ingest l = is_ready l.state
