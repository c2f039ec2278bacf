-- ===== src/Tests/Index.antt =====
-- Derived clauses and the clause index: the theorems on small inputs.
use tptp_benchmark_go.Prelude.{
  ℕ, ◌≡◌, refl, true, false, some, [], ◌∷◌, arith, reverse, List, map, ◌<◌,
}
use tptp_benchmark_go.Syntax.Term.{var, nil, cons}
use tptp_benchmark_go.Syntax.Atom
use tptp_benchmark_go.Syntax.Clause
use tptp_benchmark_go.Derived.{
  DerAndClause, derived, sources, cost, build, to_builder, of_clause, shift, set_id_offset,
}
use tptp_benchmark_go.Derived.Laws.{derived-build, rebuild_unshifted}
use tptp_benchmark_go.Index.{AtomClauseId, ClauseIndex, number_clauses}
use tptp_benchmark_go.Index.Laws.{
  atom_hash-injective, drain, matching, drain-matching, Ascending, clause_cost,
}
use tptp_benchmark_go.Index.Numbers.{HasId, count_atoms, number_clauses-distinct}

-- a clause of one atom on variable 0, and one of two atoms that costs more
abbrev unit_clause : DerAndClause
unit_clause = of_clause 1 (Clause.make (Atom.make true 4 (cons (var 0) nil) ∷ []))

abbrev pair_clause : DerAndClause
pair_clause =
    of_clause 5 (Clause.make (Atom.make true 4 nil ∷ Atom.make false 6 (cons (var 0) nil) ∷ []))

derived-build_example :
    derived (build (to_builder (shift 3 unit_clause)))
    ≡ Clause.shift 3 (derived (shift 3 unit_clause))
unfolding shift of_clause build
derived-build_example = derived-build (shift 3 unit_clause)

rebuild_unshifted_example :
    (derived (build (to_builder pair_clause)) ≡ derived pair_clause)
    × (cost (build (to_builder pair_clause)) ≡ cost pair_clause)
    × (sources (build (to_builder pair_clause)) ≡ reverse (sources pair_clause))
unfolding of_clause build
rebuild_unshifted_example = rebuild_unshifted pair_clause refl

abbrev pred_six : ℕ
pred_six = 6

atom_hash-injective_example : (pred_six ≡ pred_six) × (true ≡ true)
atom_hash-injective_example =
    atom_hash-injective 6 6 true true (omega arith) (omega arith) (omega arith) (omega arith) refl

abbrev two_clauses : ClauseIndex
two_clauses = record {
  and_clauses = unit_clause ∷ pair_clause ∷ [];
  is_starting_clause = true ∷ false ∷ [];
}

-- the atoms of both clauses
abbrev two_places : List AtomClauseId
two_places = record { atom_id = 0; clause_id = 0 } ∷ record { atom_id = 1; clause_id = 1 } ∷ []

-- the first clause is a starting one before the clause 1, the second one is within the limit
drain-matching_example :
    drain two_clauses (some 5) 1 9 two_places ≡ some (record { i = 1; cla = pair_clause } ∷ [])
unfolding Ascending clause_cost cost of_clause build matching
drain-matching_example =
    drain-matching two_clauses (some 5) 1 9 two_places (omega arith)
      (omega arith, (omega arith, tt), (omega arith, tt, tt))

abbrev two_forms : List DerAndClause
two_forms = unit_clause ∷ pair_clause ∷ []

number_clauses-distinct_example :
    (map (set_id_offset 0) (number_clauses two_forms).0 ≡ map (set_id_offset 0) two_forms)
    × ((number_clauses two_forms).1 ≡ count_atoms two_forms)
    × ((k i m : ℕ) → HasId (number_clauses two_forms).0 k i m → m < count_atoms two_forms)
    × ((k l i j m : ℕ)
        → HasId (number_clauses two_forms).0 k i m
        → HasId (number_clauses two_forms).0 l j m
        → (k ≡ l) × (i ≡ j))
number_clauses-distinct_example = number_clauses-distinct two_forms
