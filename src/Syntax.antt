-- ===== src/Syntax.antt =====
-- lazyparam_prover/syntax: terms, atoms and clauses.
pub mod Range
pub mod Term
pub mod Rep
pub mod Atom
pub mod Clause
pub mod Ground
