-- ===== src/Tests.antt =====
-- Runs of the definitions at concrete inputs.
pub mod Data
pub mod Columns
mod Kernels
mod Queries
mod Relations
pub mod Machine
pub mod Addresses
mod Programs
mod Modules
mod Graphs
mod Runs
mod Sliced
mod Types
