-- ===== src/Stripe.antt =====
-- The hot index of a log stripe, src/stripe.rs.
pub mod Postings
pub mod PostingLaws
pub mod Windows
pub mod Filling
pub mod Walks
pub mod Collect
pub mod Intersection
pub mod Interner
pub mod InternerLaws
pub mod Publication
pub mod PushLaws
pub mod Index
pub mod Lookup
pub mod Ordinals
pub mod IndexState
pub mod Gathering
pub mod Arrangement
pub mod Ranges
pub mod Finishing
pub mod Candidates
pub mod Refinement
pub mod Keyed
pub mod Apply
pub mod StripeState
pub mod Preservation
pub mod Acceptance
pub mod Replay
pub mod Durable
pub mod Fresh
pub mod Tests
