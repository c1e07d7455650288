-- ===== src/Query.antt =====
-- The lookups of src/types.rs and their exact evaluation in src/query.rs.
pub mod Types
pub mod Text
pub mod Matches
pub mod Paging
pub mod Constraints
pub mod Literals
pub mod Selection
pub mod Tests
