-- ===== src/Execution.antt =====
-- pefa/execution
pub mod Metadata
pub mod Context
pub mod Counter
pub mod Project
pub mod Rows
pub mod Filter
pub mod Materialize
pub mod Selection
pub mod Integers
pub mod Nulls
pub mod Ignored
