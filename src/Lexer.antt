-- ===== src/Lexer.antt =====
-- crates/tinox-lexer/src/lib.rs: the lexer, its definitions and what is shown of them.
pub mod Token
pub mod Keyword
pub mod Cursor
pub mod Operators
pub mod Comments
pub mod Escapes
pub mod Quoted
pub mod Numbers
pub mod Next
pub mod Safety
pub mod Reading
pub mod Tests
mod Examples
