-- ===== src/Tests.antt =====
-- The theorems of the development applied to small inputs.
pub mod Data
pub mod Memory
pub mod Syntax
pub mod Unify
pub mod Order
pub mod Engine
pub mod Index
pub mod Split
pub mod Tableau
pub mod Axioms
