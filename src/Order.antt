-- ===== src/Order.antt =====
-- The term orders of lazyparam_prover and the constraints over them.
pub mod FunOrd
pub mod Constraint
pub mod Lpo
pub mod Constrained
