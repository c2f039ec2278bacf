-- ===== src/Engine.antt =====
-- lazyparam_prover/engine: the search procedures that run a tableau calculus.
pub mod Cells
pub mod Task
pub mod Balanced
pub mod Depth
pub mod Deepening
