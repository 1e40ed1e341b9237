-- ===== src/Parser.antt =====
-- The parser, crates/sarif_syntax/src/parser.rs.
pub mod Kinds
pub mod State
pub mod Build
pub mod Peek
pub mod Types
pub mod Exprs
pub mod Bodies
pub mod Items
pub mod Leaves
pub mod Runs
pub mod Rules
pub mod Trivia
pub mod Steps
pub mod Nodes
pub mod Loops
pub mod Works
pub mod Ready
pub mod NamesRun
pub mod OperatorsRun
pub mod BodiesRun
pub mod ItemsRun
pub mod Total
pub mod Source
pub mod Stuck
pub mod Tests
pub mod TypesRun
pub mod ExprsRun
