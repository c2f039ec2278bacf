-- ===== src/Tests/Axioms.antt =====
-- The equality axioms in a structure of numbers.
use tptp_benchmark_go.Prelude.{
  ℕ, ◌+◌, ◌≡◌, ◌==◌, ==_iff, refl, Bool, true, false, if◌then◌else◌, some, List, [], ◌∷◌, All,
  arith,
}
use tptp_benchmark_go.Syntax.Term.{var, fun, nil, cons, rename}
use tptp_benchmark_go.Syntax.Atom
use tptp_benchmark_go.Syntax.Atom.{Atom, eq_pred, eq_trans_pos, eq_trans_neg, eq_symm}
use tptp_benchmark_go.Syntax.Clause
use tptp_benchmark_go.Syntax.Clause.{AndClause, make, atoms, number_from}
use tptp_benchmark_go.Derived.{OrForm, of_clause, build, derived, sources}
use tptp_benchmark_go.Axioms.Model.{Follows}
use tptp_benchmark_go.Axioms.Flatten.{flatten_form}
use tptp_benchmark_go.Axioms.Flatten.Derives.{EqBinary, flatten_form-Follows}
use tptp_benchmark_go.Axioms.Congruence.{Excludes, Equivalence}
use tptp_benchmark_go.Axioms.Arity.Laws.{EachAtom, AtomArity}
use tptp_benchmark_go.Axioms.Append.{
  append_eq_axioms, append_eq_axioms_with_restricted_transitivity,
}
use tptp_benchmark_go.Axioms.Append.Laws.{
  AtomRespects, append_eq_axioms-Equivalence, append_eq_axioms-Excludes,
}
use tptp_benchmark_go.Axioms.Append.Restricted.{StandsForEq, append_restricted-Follows}
use tptp_benchmark_go.Tests.Data.{arity, constant}

-- every function is the sum, and relations of two numbers are equality
abbrev sum : ℕ → List ℕ → ℕ
sum f [] = 0
sum f (x ∷ l) = x + sum f l

abbrev same : ℕ → List ℕ → Bool
same p [] = true
same p (x ∷ []) = true
same p (x ∷ y ∷ []) = x == y
same p (x ∷ y ∷ z ∷ l) = true

abbrev pred_arity_of : ℕ → ℕ
pred_arity_of p = if p == eq_pred then 2 else 1

-- not 4 of the functor 5 of variable 0, and the functor 5 of 7 is variable 0
abbrev problem : OrForm
problem =
    of_clause 1 (
      make (
        Atom.make false 4 (cons (fun 5 (cons (var 0) nil)) nil)
        ∷ Atom.eq true (fun 5 (cons constant nil)) (var 0)
        ∷ []))
    ∷ []

problem-AtomArity : All (EachAtom arity pred_arity_of (AtomArity arity pred_arity_of)) problem
unfolding of_clause build derived sources atoms number_from Clause.shift Clause.set_id_offset
    Atom.shift Atom.set_id rename
problem-AtomArity = (
  (
    ((refl, ((refl, (tt, tt)), tt)), ((refl, ((refl, ((refl, tt), tt)), (tt, tt))), tt)),
    (((refl, ((refl, (tt, tt)), tt)), ((refl, ((refl, ((refl, tt), tt)), (tt, tt))), tt)), tt),
  ),
  tt,
)

problem-Excludes : All (Excludes sum same) problem
unfolding of_clause build derived Clause.shift Clause.set_id_offset Atom.shift rename
problem-Excludes = ((λ v h. let e = h.0 in cc), tt)

problem-Follows : All (Follows sum same) problem
unfolding of_clause build derived sources Clause.shift Clause.set_id_offset Atom.shift rename
problem-Follows = ((λ v h none'. none'.0 h), tt)

problem-EqBinary : All (λ c. All EqBinary (derived c).stored) problem
unfolding of_clause build derived Clause.shift Clause.set_id_offset Atom.shift rename
problem-EqBinary = (((λ e. absurd (omega (arith, e))), ((λ e. refl), tt)), tt)

same_of_any : (p q : ℕ) (xs : List ℕ) → same p xs ≡ same q xs
same_of_any p q [] = refl
same_of_any p q (x ∷ []) = refl
same_of_any p q (x ∷ y ∷ []) = refl
same_of_any p q (x ∷ y ∷ z ∷ l) = refl

same-StandsForEq : StandsForEq same
same-StandsForEq = record {
  trans_pos = same_of_any eq_trans_pos eq_pred;
  trans_neg = same_of_any eq_trans_neg eq_pred;
  symm = same_of_any eq_symm eq_pred;
}

flatten_form-Follows_example :
    (f' : OrForm) × (flatten_form problem ≡ some f') × All (Follows sum same) f'
flatten_form-Follows_example =
    flatten_form-Follows sum same problem problem-EqBinary problem-Follows

append_eq_axioms-Equivalence_example :
    (f' : OrForm) × (append_eq_axioms problem ≡ some f')
    × (All (Excludes sum same) f'
        → All (Excludes sum same) problem
          × Equivalence sum same
          × All
              (EachAtom arity pred_arity_of (AtomRespects arity pred_arity_of refl sum same))
              problem)
unfolding of_clause build
append_eq_axioms-Equivalence_example =
    append_eq_axioms-Equivalence arity pred_arity_of refl sum same problem (refl, tt)
      problem-AtomArity

append_eq_axioms-Excludes_example :
    (f' : OrForm) × (append_eq_axioms problem ≡ some f') × All (Excludes sum same) f'
unfolding of_clause build
append_eq_axioms-Excludes_example =
    append_eq_axioms-Excludes arity pred_arity_of refl sum same (λ x y. ==_iff x y) problem
      (refl, tt) problem-AtomArity problem-Excludes

append_restricted-Follows_example :
    (f' : OrForm) × (append_eq_axioms_with_restricted_transitivity problem ≡ some f')
    × All (Follows sum same) f'
append_restricted-Follows_example =
    append_restricted-Follows sum same same-StandsForEq arity pred_arity_of refl problem
      problem-AtomArity problem-Follows
