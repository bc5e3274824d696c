-- ===== src/Sqlparser.antt =====
-- The syntax trees of sqlparser, and their printing.
pub mod Ast
pub mod Keywords
pub mod Format
pub mod Literals
pub mod Statements
pub mod Limits
