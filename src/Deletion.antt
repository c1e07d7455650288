-- ===== src/Deletion.antt =====
-- The logical deletion requests (src/deletion.rs).
pub mod Catalog
pub mod Ids
pub mod Requests
pub mod Tests
