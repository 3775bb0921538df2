-- ===== src/Rewrite.antt =====
-- The rewrite phase of destor: the buffer of pending chunks and the three rewriting algorithms.
pub mod Records
pub mod Buffer
pub mod Har
pub mod Sparse
pub mod Drain
pub mod Cfl
pub mod Cap
pub mod Phase
mod Tests
