-- ===== src/NativeProtocol.antt =====
-- The wire formats of the native protocol (src/native_protocol.rs).
pub mod Wire
pub mod Batch
pub mod Validate
pub mod Agreement
pub mod Events
pub mod Lockstep
pub mod EventLaws
pub mod EventRecords
pub mod EventStreams
pub mod DurableDecode
pub mod Frame
pub mod FrameRoundTrip
pub mod Query
pub mod QueryLaws
pub mod Tests
