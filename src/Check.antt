-- ===== src/Check.antt =====
-- crates/tinox-typecheck/src/lib.rs: the types of the checker, inheritance, type parameters, and the
-- tests on syntax.
pub mod ValueType
pub mod Compatible
pub mod TypeError
pub mod Operators
pub mod ThisUse
pub mod Inheritance
pub mod Generics
mod Examples
