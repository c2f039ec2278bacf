-- ===== src/Axioms/Append.antt =====
-- The equality axioms added to a problem (`append_eq_axioms` and its variants in
-- lazyparam_prover/eq_axioms.h). `none` is an error of `ArityCtx`, or a read past the end of the
-- arguments of an equation.
pub mod Result
pub mod Laws
pub mod Restricted
use tptp_benchmark_go.Prelude.{
  ℕ, ◌+◌, Bool, true, false, not, Option, none, some, ◌>>=◌, ◌==◌, ◌&&◌, if◌then◌else◌, List, [],
  ◌∷◌, ◌++◌, map,
}
use tptp_benchmark_go.Syntax.Term.{Term, Terms, var, fun, nil, cons, arg}
use tptp_benchmark_go.Syntax.Atom
use tptp_benchmark_go.Syntax.Atom.{Atom, eq_pred, eq_trans_pos, eq_trans_neg, eq_symm}
use tptp_benchmark_go.Syntax.Clause.{AndClause, make, atoms}
use tptp_benchmark_go.Order.Constraint
use tptp_benchmark_go.Order.Constraint.{OrderAtom, ne}
use tptp_benchmark_go.Derived
use tptp_benchmark_go.Derived.{DerAndClause, OrForm, derived, to_builder, build}
use tptp_benchmark_go.Axioms.{
  Kind, reflexivity, symmetry, transitivity, congruence_pred, congruence_fun, eq_axiom,
}
use tptp_benchmark_go.Axioms.Arity.{Entry, ArityCtx, initial, traverse_form}
use tptp_benchmark_go.Axioms.Flatten.{flatten_form}

-- `OrderAtom(A,OrderAtom::NE,a.arg(0),a.arg(1))` for the atoms `a != b`
unfoldable pub refl_constraints : List Atom → Option (List OrderAtom)
refl_constraints [] = some []
refl_constraints (a ∷ l) =
    let rest = refl_constraints l in
    if (a.pred == eq_pred) && not a.sign
    then (arg a.args 0 >>= λ x. arg a.args 1 >>= λ y.
        rest >>= λ cs. some (Constraint.build ne (record { a = x; b = y } ∷ []) ∷ cs))
    else rest

unfoldable pub add_refl_constraint : DerAndClause → Option DerAndClause
unfolding refl_constraints
add_refl_constraint c =
    let b = to_builder c in
    refl_constraints (atoms (derived c)) >>= λ cs.
    some (build (record b { constraints = b.constraints ++ cs }))

unfoldable pub add_refl_constraints : OrForm → Option OrForm
unfolding add_refl_constraint
add_refl_constraints [] = some []
add_refl_constraints (c ∷ cs) =
    add_refl_constraint c >>= λ d. add_refl_constraints cs >>= λ ds. some (d ∷ ds)

-- the loops over `ctx.pred_arity` and `ctx.fun_arity`
unfoldable pub pred_kinds : List Entry → List Kind
pred_kinds [] = []
pred_kinds (x ∷ m) =
    let rest = pred_kinds m in
    if not (x.key == eq_pred) && not (x.count == 0)
    then congruence_pred x.key x.count ∷ rest
    else rest

unfoldable pub fun_kinds : List Entry → List Kind
fun_kinds [] = []
fun_kinds (x ∷ m) =
    let rest = fun_kinds m in
    if not (x.count == 0) then congruence_fun x.key x.count ∷ rest else rest

abbrev pub congruences : ArityCtx → List Kind
congruences ctx = pred_kinds ctx.pred_arity ++ fun_kinds ctx.fun_arity

abbrev pub equivalence_axioms : List Kind
equivalence_axioms = reflexivity ∷ symmetry ∷ transitivity ∷ []

unfoldable pub append_eq_axioms : OrForm → Option OrForm
unfolding add_refl_constraints pred_kinds fun_kinds eq_axiom traverse_form
append_eq_axioms f = add_refl_constraints f >>= λ g. traverse_form g initial >>= λ ctx.
    some (g ++ map eq_axiom (equivalence_axioms ++ congruences ctx))

unfoldable pub reduce_monotonicity_and_append_eq_axioms : OrForm → Option OrForm
unfolding flatten_form eq_axiom
reduce_monotonicity_and_append_eq_axioms f =
    flatten_form f >>= λ g. some (g ++ map eq_axiom equivalence_axioms)

-- `Atom(A,sign,pred,{x,y})`
abbrev pub atom_of : Bool → ℕ → Term → Term → Atom
atom_of s p x y = Atom.make s p (cons x (cons y nil))

-- a builder with this cost, atoms and sources
abbrev pub clause_of : ℕ → List Atom → List AndClause → DerAndClause
clause_of n l ss = build (record {
  offset = 0;
  id_offset = 0;
  cost = n;
  derived = make l;
  sources = ss;
  constraints = [];
})

abbrev pub restricted_symm1 : DerAndClause
restricted_symm1 =
    clause_of 0
      (atom_of true eq_trans_pos (var 0) (var 1) ∷ atom_of false eq_symm (var 0) (var 1) ∷ []) []

abbrev pub restricted_symm2 : DerAndClause
restricted_symm2 =
    clause_of 0
      (atom_of true eq_trans_pos (var 1) (var 0) ∷ atom_of false eq_symm (var 0) (var 1) ∷ [])
      (make (atom_of true eq_pred (var 1) (var 0) ∷ atom_of false eq_pred (var 0) (var 1) ∷ [])
        ∷ [])

abbrev pub restricted_trans_pos : DerAndClause
restricted_trans_pos =
    clause_of 1
      (atom_of true eq_symm (var 0) (var 1)
        ∷ atom_of true eq_pred (var 1) (var 2)
        ∷ atom_of false eq_pred (var 0) (var 2)
        ∷ [])
      (make (
          atom_of true eq_pred (var 0) (var 1)
          ∷ atom_of true eq_pred (var 1) (var 2)
          ∷ atom_of false eq_pred (var 0) (var 2)
          ∷ [])
        ∷ [])

abbrev pub restricted_trans_neg : DerAndClause
restricted_trans_neg =
    clause_of 0
      (atom_of false eq_trans_neg (var 0) (var 1)
        ∷ atom_of true eq_pred (var 1) (var 2)
        ∷ atom_of true eq_pred (var 0) (var 2)
        ∷ [])
      (make (
          atom_of false eq_pred (var 0) (var 1)
          ∷ atom_of true eq_pred (var 1) (var 2)
          ∷ atom_of true eq_pred (var 0) (var 2)
          ∷ [])
        ∷ [])

unfoldable pub append_restricted_transitivity_axioms : OrForm → OrForm
append_restricted_transitivity_axioms f =
    f ++ (restricted_symm1 ∷ restricted_symm2 ∷ restricted_trans_pos ∷ restricted_trans_neg ∷ [])

-- An equation becomes an atom that only the restricted axioms use.
unfoldable pub restrict_atom : Atom → Atom
restrict_atom a =
    if a.pred == eq_pred
    then Atom.build a.sign (if not a.sign then eq_trans_pos else eq_trans_neg) a.args a.strong_only
    else a

unfoldable pub restrict_clause : DerAndClause → DerAndClause
unfolding restrict_atom
restrict_clause c =
    build (record (to_builder c) { derived = make (map restrict_atom (atoms (derived c))) })

unfoldable pub append_eq_axioms_with_restricted_transitivity : OrForm → Option OrForm
unfolding traverse_form pred_kinds fun_kinds eq_axiom restrict_clause
    append_restricted_transitivity_axioms
append_eq_axioms_with_restricted_transitivity f = traverse_form f initial >>= λ ctx. some (
    append_restricted_transitivity_axioms
      (map restrict_clause (f ++ map eq_axiom (congruences ctx)) ++ (eq_axiom reflexivity ∷ [])))
