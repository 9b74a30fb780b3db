-- ===== src/Kernel.antt =====
-- pefa/kernels/filter.cpp
pub mod Ir
pub mod Emit
pub mod Literals
pub mod Code
pub mod Graph
pub mod Object
pub mod Execute
pub mod Integers
pub mod Loops
pub mod Remaining
pub mod Predicates
pub mod Typed
pub mod Numbers
pub mod Limits
pub mod Wraps
