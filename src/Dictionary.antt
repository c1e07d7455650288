-- ===== src/Dictionary.antt =====
-- src/dictionary.rs: immutable compression dictionaries, their catalog and a stripe's cache of them.
-- `DictionaryId`, `CompressionPlacementId` are the integers that they wrap.
pub mod Catalog
pub mod Cache
pub mod Publication
pub mod Eviction
pub mod Recency
pub mod CacheLaws
mod Tests
