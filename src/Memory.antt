-- ===== src/Memory.antt =====
-- lazyparam_prover/memory: the arrays that undo their writes and the block allocator.
pub mod Rewind
pub mod Reset
pub mod Stack
