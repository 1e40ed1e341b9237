-- ===== src/Ast.antt =====
-- The lowering of trees to declarations, crates/sarif_syntax/src/ast.rs.
pub mod Literals
pub mod Tokens
pub mod Laws
pub mod Tests
