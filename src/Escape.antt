-- ===== src/Escape.antt =====
-- Escape analysis, crates/sarif_codegen/src/escape.rs.
pub mod Flags
pub mod Env
pub mod Analyze
pub mod Order
pub mod Fixpoint
pub mod Monotone
pub mod Runs
pub mod Sound
pub mod Program
pub mod Callees
pub mod Settle
pub mod Report
mod Tests
