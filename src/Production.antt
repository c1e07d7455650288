-- ===== src/Production.antt =====
-- The lifecycle, the configuration, the ingest rate and the admission of src/production.rs.
pub mod Lifecycle
pub mod LifecycleSteps
pub mod Rate
pub mod RateBound
pub mod Config
pub mod Admission
pub mod AdmissionLaws
pub mod Tests
