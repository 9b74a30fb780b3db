-- ===== src/Program.antt =====
-- The program on the JIT that its kernels share, a static variable of pefa/jit/jit.cpp: every kernel
-- is compiled on it, called by the addresses that it found, and destroyed.
pub mod Kernels
pub mod Filter
pub mod Query
pub mod Laws
pub mod Same
pub mod Called
pub mod Lifetime
pub mod Filters
pub mod Queries
pub mod Leaks
pub mod Resolvers
