-- ===== src/Lexer/Reading.antt =====
-- What the readers return for a text that stands at the cursor.
pub mod At
pub mod OperatorTable
pub mod Operators
pub mod Spelling
pub mod Words
pub mod Integers
pub mod Strings
pub mod Comments
pub mod Positions
pub mod Recovery
