-- ===== src/Lib.antt =====
-- A verification library for the core of lazyparam_prover, a tableau theorem prover in C++.
--
-- The prover keeps terms, atoms and clauses in an arena (memory/stack.h), shares them between
-- branches by an offset that is added to variable ids, and binds variables in a triangular
-- substitution (mgu.h) over an array that can be rewound (memory/array.h). Order constraints
-- (constraint.h) over a term order (lpo.h, with the precedence of fun_ord.h) restrict the bindings
-- (constrained_valuation.h). A search engine (engine/balanced.h, engine/depth.h) runs tasks that
-- extend the tableau, saves alternatives, and rewinds arena and search state to them; the limit
-- of the search grows by iterative deepening (engine/engine.h).
--
-- Files, with paths from lazyparam_prover/:
--   Prelude         names, tests and list functions that all parts share
--   Memory/Rewind   memory/array.h, RewindArray; Memory/Reset: ResetArray
--   Memory/Stack    memory/stack.h, alloc_bytes, save, restore; the addresses that new[] returns are
--                   the parameter `fresh`, and that blocks do not overlap is the hypothesis Separate
--   Syntax/Range    VarRange of syntax/term.h
--   Syntax/Term     terms as trees; Syntax/Rep: the pointers with offsets that stand for them
--   Syntax/Atom, Syntax/Clause, Syntax/Ground   syntax/atom.h, syntax/clause.h, ground.h
--   Unify           Valuation of mgu.h: allocate, has_var, assign, mgu, equal, eval, shallow_eval
--   Order/FunOrd    fun_ord.h; Order/Constraint: constraint.h; Order/Lpo: lpo.h
--   Order/Constrained  constrained_valuation.h; its parts Laws, Returns and Total
--   Derived         derived.h, and the evaluation of derived clauses in mgu.h
--   Index           index.h: the numbers of atoms, the filter; atom_hash of eq_axioms.h
--   Split           lazy_paramodulation/split.h: paths to subterms
--   Index/Matches   the sets of unifiable atoms of index.h, and the filters over them
--   Axioms          eq_axioms.h: the axioms of reflexivity, symmetry, transitivity, congruence
--   Axioms/Arity, Axioms/Flatten, Axioms/Append   ArityCtx, FlatClauseBuilder, and the functions that
--                   add the axioms to a problem; Axioms/Model: first-order structures
--   Search          search_state.h: the state that the tasks of a search work on
--   Tableau         connection_tableau/frames: the tasks, with closures as values of a data type
--   Engine/Cells    memory/list.h, immutable lists whose cells have addresses
--   Engine/Task     what a search engine runs, Engine/Balanced and Engine/Depth: the two engines
--   Engine/Deepening  the loops `search` and `iterative_deepening`
--   Tests           the theorems applied to small inputs
--
-- State is passed explicitly: an operation takes the record of its object and returns the new one.
-- An Option result `none` stands for a debug check of the source that fails, a read past the end of
-- an argument list, or fuel that ran out.
--
-- Fuel. Functions that follow variable bindings (Unify, Order/Lpo) take fuel, one unit for each
-- binding followed and each level of recursion; the source has no bound. For valuations without
-- cycles, which the occurs check keeps so, the theorems say that from some amount of fuel on these
-- functions give one result (Settles), so the amount does not matter. The measure is the number of
-- free variables, then ranks that fall along each binding, then the sizes of the terms. Iterative
-- deepening takes fuel for its rounds, and its theorem names the amount that is enough. The loop of
-- strong_resolution (Tableau) takes fuel for the atoms that are connected. The functions on terms
-- alone recurse on the term and need no fuel.
--
-- Machine integers. Sizes and limits of engine/balanced.h, the node count of Search and the hash of
-- Index wrap modulo 2^64.
-- Variable ids, addresses and offsets are natural numbers. Where the offset by which `allocate` moves
-- a clause would wrap, the ids below it are moved at once to the values that they read.
--
-- Saved states. The engines have the live state `S` and the saved state `R` apart, with `save` and
-- `restore` as parameters of the step; Search defines these for the state of a proof search.
--
-- Not modelled: the range that an atom stores, which after replace_arg of syntax/atom.h still covers
-- the replaced argument (Syntax/Atom computes the range from the arguments, Syntax/Rep keeps that of
-- terms); the Knuth-Bendix order (kbo.h), which no program of the repository selects;
-- lazy_paramodulation apart from the paths of split.h; std::stable_sort, which is a parameter of
-- Index; parsing, printing, logging, deadlines and the programs, which are input and output;
-- memory/layout.h and the other templates of memory, for which the model has records; ffprover,
-- which does not compile.
pub mod Prelude
pub mod Memory
pub mod Syntax
pub mod Unify
pub mod Order
pub mod Derived
pub mod Index
pub mod Split
pub mod Axioms
pub mod Search
pub mod Tableau
pub mod Engine
pub mod Tests
