-- ===== src/Lexer/Safety.antt =====
-- Safety of the lexer: panics, fuel, and where the cursor and the spans go.
pub mod Rules
pub mod Kinds
pub mod Operators
pub mod Comments
pub mod Escapes
pub mod Quoted
pub mod RawStrings
pub mod Numbers
pub mod Next
pub mod Tokenize
