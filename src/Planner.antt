-- ===== src/Planner.antt =====
-- The query planner, crates/sarif_query_planner: plans, the optimizer, the SQL reader, the code
-- generator, the result cursor and the C interface.
pub mod Plan
pub mod Pretty
pub mod Balance
pub mod Optimizer
pub mod Sql
pub mod Codegen
pub mod Cursor
pub mod Handle
mod Tests
