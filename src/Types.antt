-- ===== src/Types.antt =====
-- The types of the semantic analysis and what is asked of them, crates/sarif_frontend/src/semantic.
pub mod Data
pub mod Compatible
pub mod Contains
pub mod Laws
pub mod Consts
pub mod Reach
pub mod Searches
pub mod Found
pub mod Tests
