-- ===== src/Ast.antt =====
-- crates/tinox-parser/src/ast.rs and node_ids.rs: the syntax tree and the numbering of its nodes.
pub mod Types
pub mod Expr
pub mod Decl
pub mod NodeIds
pub mod Numbering
pub mod Collect
pub mod Bare
pub mod Ids
pub mod DeclIds
pub mod Numbered
pub mod Assigned
mod Examples
