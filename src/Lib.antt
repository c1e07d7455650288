-- ===== src/Lib.antt =====
-- shard-log, a log database engine over the durable append log of shard-stream.
--
-- A shard-stream worker owns one physical shard. Each of its appends that is durable goes to the
-- sink worker of that shard (src/sink.rs), which keeps a journal of what it has applied
-- (src/sink_journal.rs), decodes the payload (src/native_protocol.rs or src/otlp.rs) and publishes
-- the records to the shard's log-index stripe (src/stripe.rs). The stripe seals blocks, compressed
-- with the dictionaries of a shared catalog that it caches (src/dictionary.rs). Clients reach the
-- store by Loki HTTP and by the native TCP protocol, both admitted by one production runtime
-- (src/production.rs).
--
-- What is modelled, by file:
--
--   Errors              `LogDbError` (src/error.rs)
--   Partition           `TopicPartition`, of the shard-stream crates: two integers
--   SinkJournal         src/sink_journal.rs. Types: `DurableSinkCheckpoint`, `DurableAppend`,
--                       `RecoveredAppend`, `RecoveredTransaction`. Codec: `encode_transaction`,
--                       `decode_transaction`. Journal: `open_journal` is `SinkJournal::open`,
--                       `recover` and `recover_loop` are `recover`. Append: `append` is
--                       `SinkJournal::append`. Opening: `open_with` is `open` with failing writes.
--                       Cursor and RoundTrip are about the codec, Frames, History, Recovery,
--                       Totality and Retry about the file.
--   Dictionary          src/dictionary.rs. Catalog: the snapshot and `publish`. Cache:
--                       `DictionaryCache`, with `insert_dictionary`, `get`, `contains`.
--                       Publication, Eviction, Recency and CacheLaws are about them.
--   NativeProtocol      src/native_protocol.rs. Wire: the cursor and UTF-8. Batch:
--                       `inspect_native_log_batch`, `decode_native_log_batch`. Validate:
--                       `validate_native_log_batch`. Events: `decode_native_log_events`. Frame:
--                       the frame header, the frame, the append acknowledgement. Query:
--                       `validate_query`, `encode_native_query`. Agreement, Lockstep, EventLaws,
--                       EventRecords, EventStreams, DurableDecode, FrameRoundTrip and QueryLaws
--                       are about them.
--   Production          src/production.rs. Lifecycle: `ServiceLifecycle`, one caller at a time.
--                       LifecycleSteps: the same under any interleaving. Rate:
--                       `IngestRateLimiter`. RateBound is about it. Config: `SingleTenantConfig`.
--                       Admission: `ProductionRuntime`. AdmissionLaws is about both.
--   BlockCatalog        src/block.rs. Catalog: `BlockCatalog`. Staging is about it.
--   Deletion            src/deletion.rs. Catalog: `create`, `list` and `cancel` of
--                       `DeleteCatalog`. Ids and Requests are about them.
--   Query               src/query.rs, with the types of src/types.rs. Types: `DurableLogRecord`,
--                       `LogPredicate`, `LogQuery`. Text: the text tests, and
--                       `scan_message_terms` of src/locality.rs. Matches: `predicate_matches`,
--                       `LogQuery::matches`, `compare`, `select`. Constraints:
--                       `required_index_constraints`. Paging, Literals and Selection are about them.
--   Stripe              src/stripe.rs. Postings: `HotPostingList`, `intersect_ordinal_runs`.
--                       Interner, Index: `index_terms`, `index_fields`. Lookup:
--                       `query_ordinals`. Apply: `LogStripe`, `apply_durable`,
--                       `apply_durable_idempotent`. PostingLaws, Windows, Filling, Walks, Collect
--                       and Intersection are about posting lists; InternerLaws, Publication,
--                       PushLaws, Keyed, IndexState, StripeState, Preservation, Acceptance,
--                       Replay, Durable and Fresh about publication; Ordinals, Gathering, Arrangement,
--                       Ranges, Finishing, Candidates and Refinement about lookups.
--   Prelude, Bytes, Outcome, Map
--                       what the parts share: tests, lists, little-endian integers, `Result`, maps
--
-- Conventions. Integers are natural numbers, with the ranges of their machine types written out
-- where the code depends on them; a wrap-around and a saturation are written out. A file is the
-- list of its bytes. A text is the list of its bytes. A map is an association list, of which no
-- order is used unless its file says so. An operation that changes a state returns the new one.
-- `None` and errors are values, and so is a panic of an `expect`: it is a `none` that theorems
-- exclude.
--
-- Bounds and fuel. The loop of `recover` runs on fuel: the length of the file, and each frame
-- takes at least a byte of it. The loop that evicts from the dictionary cache runs on fuel: the
-- number of entries, one of which each round removes. Every other loop is over a list or a count.
--
-- Outside code. BLAKE3 is a parameter, of which only the digest's width in bytes is used. The
-- semaphores of tokio are a parameter: the number of free permits, how an acquisition and a drop
-- change it, and the number of permits above which a new one panics. Whether a `send` of tokio's
-- watch channel finds a receiver is a parameter. What the deletion catalog's `persist` returns is
-- a parameter. The writes that append to the journal and that begin it may fail after any number
-- of bytes, and `sync_data` and `set_len` may fail; reads, seeks and the calls on directories
-- succeed. Locks are not poisoned. The Unicode tables of the standard library and the regex
-- engine are parameters of lookups; of the tables it is used that they agree with the ASCII
-- functions on ASCII. When a record is published, whether compression resolves its dictionary and
-- seals the active block is a parameter, and so are the cache slots, of which one is the address
-- of the fields. A sort that is not stable is an insertion sort, on records that never compare
-- equal; the posting lists of a lookup may compare equal, and its answer does not depend on their
-- order.
--
-- Not modelled: the compression codecs and the structural blocks, the index of sealed blocks, the
-- object tier, the Loki and ClickHouse interfaces, OTLP decoding (prost), the sink workers, the
-- dictionary learner, the binaries. Of src/stripe.rs: homogeneous ranges, indexed ingest frames,
-- the sealing and rebalancing of active blocks, and the merge of lookups across partitions. Of
-- src/locality.rs: everything but the scan for terms. Of src/types.rs: the builders that set one
-- field. Nor are `encode_native_log_batch`, the borrowed batch view and `decode_native_query` of
-- src/native_protocol.rs, and `replace_tenant` and `open` of src/deletion.rs.
pub mod Prelude
pub mod Bytes
pub mod Outcome
pub mod Map
pub mod Partition
pub mod Errors
pub mod SinkJournal
pub mod Dictionary
pub mod NativeProtocol
pub mod Production
pub mod BlockCatalog
pub mod Deletion
pub mod Query
pub mod Stripe
