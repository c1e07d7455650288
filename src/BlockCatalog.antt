-- ===== src/BlockCatalog.antt =====
-- The directory of sealed blocks (src/block.rs).
pub mod Catalog
pub mod Staging
pub mod Tests
