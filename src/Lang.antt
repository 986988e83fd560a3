-- ===== src/Lang.antt =====
-- The script language: comments, the scanning tools, and the reader of expressions with its grammar.
mod Tests
pub mod Comments
pub mod Scan
pub mod Expression
pub mod Parser
pub mod Grammar
pub mod Value
pub mod Arrays
pub mod Variables
pub mod Functions
pub mod Structs
pub mod Evaluate
pub mod Conditions
