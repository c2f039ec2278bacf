-- ===== src/Axioms.antt =====
-- The equality axioms of lazyparam_prover/eq_axioms.h, in negated form: conjunctions of atoms that
-- no structure satisfies in which `EQ` is equality.
pub mod Laws
pub mod Model
pub mod Flatten
pub mod Arity
pub mod Append
pub mod Congruence
use tptp_benchmark_go.Prelude.{ℕ, zero, suc, ◌+◌, ◌*◌, true, false, List, [], ◌∷◌}
use tptp_benchmark_go.Syntax.Term.{Terms, var, fun, nil, cons}
use tptp_benchmark_go.Syntax.Atom
use tptp_benchmark_go.Syntax.Atom.{Atom}
use tptp_benchmark_go.Syntax.Clause.{make}
use tptp_benchmark_go.Derived.{DerAndClause, of_clause}

unfoldable pub neg_refl_axiom : DerAndClause
neg_refl_axiom = of_clause 0 (make (Atom.eq false (var 0) (var 0) ∷ []))

unfoldable pub neg_symm_axiom : DerAndClause
neg_symm_axiom =
    of_clause 1 (make (Atom.eq true (var 0) (var 1) ∷ Atom.eq false (var 1) (var 0) ∷ []))

unfoldable pub neg_trans_axiom : DerAndClause
neg_trans_axiom = of_clause 3 (
    make (
      Atom.eq true (var 0) (var 1)
      ∷ Atom.eq true (var 1) (var 2)
      ∷ Atom.eq false (var 0) (var 2)
      ∷ []))

-- The loops over the arguments, from the i-th on, with `n` left: the equations, and the arguments
-- of the two sides.
unfoldable pub equations : ℕ → ℕ → List Atom → List Atom
equations zero i l = l
equations (suc n) i l = Atom.eq true (var (2 * i)) (var (2 * i + 1)) ∷ equations n (i + 1) l

unfoldable pub left_vars : ℕ → ℕ → Terms
left_vars zero i = nil
left_vars (suc n) i = cons (var (2 * i)) (left_vars n (i + 1))

unfoldable pub right_vars : ℕ → ℕ → Terms
right_vars zero i = nil
right_vars (suc n) i = cons (var (2 * i + 1)) (right_vars n (i + 1))

unfoldable pub neg_cong_pred_axiom : ℕ → ℕ → DerAndClause
unfolding equations left_vars right_vars
neg_cong_pred_axiom p n = of_clause 3 (
    make
      (equations n 0 (Atom.make true p (left_vars n 0) ∷ Atom.make false p (right_vars n 0) ∷ [])))

unfoldable pub neg_cong_fun_axiom : ℕ → ℕ → DerAndClause
unfolding equations left_vars right_vars
neg_cong_fun_axiom f n =
    of_clause 3
      (make (equations n 0 (Atom.eq false (fun f (left_vars n 0)) (fun f (right_vars n 0)) ∷ [])))

-- What `append_eq_axioms` adds, by its kind.
pub data Kind : Type 0 where
  reflexivity symmetry transitivity : Kind
  congruence_pred congruence_fun : ℕ → ℕ → Kind

unfoldable pub eq_axiom : Kind → DerAndClause
unfolding neg_refl_axiom neg_symm_axiom neg_trans_axiom neg_cong_pred_axiom neg_cong_fun_axiom
eq_axiom reflexivity = neg_refl_axiom
eq_axiom symmetry = neg_symm_axiom
eq_axiom transitivity = neg_trans_axiom
eq_axiom (congruence_pred p n) = neg_cong_pred_axiom p n
eq_axiom (congruence_fun f n) = neg_cong_fun_axiom f n
