-- ===== src/SinkJournal.antt =====
-- src/sink_journal.rs: the checksummed transaction journal of one physical sink stripe.
pub mod Types
pub mod Codec
pub mod Cursor
pub mod RoundTrip
pub mod Journal
pub mod Opening
pub mod Append
pub mod Frames
pub mod History
pub mod Recovery
pub mod Totality
pub mod Retry
pub mod Tests
