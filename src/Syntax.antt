-- ===== src/Syntax.antt =====
-- Tokens, trees and the lexer, crates/sarif_syntax/src/lib.rs and lexer.rs.
pub mod Token
pub mod Kind
pub mod Tree
pub mod Lexer
pub mod Covered
pub mod Lossless
pub mod Tests
