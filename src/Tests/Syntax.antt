-- ===== src/Tests/Syntax.antt =====
-- Terms, their representation and clauses: the theorems on small inputs.
use tptp_benchmark_go.Prelude.{◌≡◌, refl, some, ◌>>=◌, [], ◌∷◌, arith, true, get_elem?}
use tptp_benchmark_go.Syntax.Range.{Has}
use tptp_benchmark_go.Syntax.Term
use tptp_benchmark_go.Syntax.Term.{Term, eq_term, AllVars}
use tptp_benchmark_go.Syntax.Term.Laws.{Decides, eq_term-Decides}
use tptp_benchmark_go.Syntax.Rep
use tptp_benchmark_go.Syntax.Rep.{Ref, Cell, Refs, fun_cell, var_cell, make_fun, var_range, denote}
use tptp_benchmark_go.Syntax.Rep.Laws.{
  denote-shift, set_term_arg, Covered, CoveredRefs, replace_arg-Covered,
}
use tptp_benchmark_go.Syntax.Rep.Built.{
  Built, built_var, built_fun, built_shift, built_replace, built_nil, built_cons, var_range-Built,
}
use tptp_benchmark_go.Syntax.Atom
use tptp_benchmark_go.Syntax.Atom.{Atom}
use tptp_benchmark_go.Syntax.Clause.{atom, atoms, atom-atoms, or_atom, or_make, or_atom-or_make}
use tptp_benchmark_go.Syntax.Ground.{ground, ground-AllVars}
use tptp_benchmark_go.Tests.Data.{arity, constant}

-- the functor 3 of the variables 2 and 6
abbrev pair_term : Term
pair_term = Term.fun 3 (Term.cons (Term.var 2) (Term.cons (Term.var 6) Term.nil))

eq_term-Decides_example : Decides (eq_term pair_term constant) (pair_term ≡ constant)
eq_term-Decides_example = eq_term-Decides arity pair_term constant (refl, (tt, (tt, tt))) (refl, tt)

-- the same functor in memory, its arguments shifted by 1
abbrev pair_args : Refs
pair_args = Rep.cons var_cell 1 (Rep.cons var_cell 5 Rep.nil)

abbrev pair_cell : Cell
pair_cell = fun_cell (record { begin = 1; end = 6 }) 3 pair_args

abbrev pair_ref : Ref
pair_ref = record { ptr = pair_cell; offset = 1 }

denote-shift_example : denote (Rep.shift 4 pair_ref) ≡ Term.shift 4 (denote pair_ref)
denote-shift_example = denote-shift 4 pair_ref

pair_args-Covered : CoveredRefs pair_args
unfolding CoveredRefs Covered
pair_args-Covered = (tt, (tt, tt))

pair_cell-Covered : Covered pair_cell
unfolding Covered Rep.denote_refs Rep.denote_cell
pair_cell-Covered = (
  (
    record { low = omega arith; high = omega arith },
    (record { low = omega arith; high = omega arith }, tt),
  ),
  pair_args-Covered,
)

-- the functor 3 of the variables 1 and 5, then shifted by 1
abbrev built_ref : Ref
built_ref = Rep.shift 1 (make_fun 3 pair_args)

built_ref-Built : Built built_ref
unfolding Rep.make_var
built_ref-Built = built_shift 1 (make_fun 3 pair_args) (
    built_fun 3 pair_args (
      built_cons (Rep.make_var 1) (Rep.cons var_cell 5 Rep.nil) (built_var 1)
        (built_cons (Rep.make_var 5) Rep.nil (built_var 5) built_nil)))

var_range-Built_example :
    AllVars
      (Has (var_range (Rep.replace_arg built_ref 0 built_ref)))
      (denote (Rep.replace_arg built_ref 0 built_ref))
var_range-Built_example =
    var_range-Built (Rep.replace_arg built_ref 0 built_ref)
      (built_replace built_ref 0 built_ref built_ref-Built built_ref-Built)

replace_arg-Covered_example :
    Covered (Rep.replace_arg pair_ref 0 pair_ref).ptr
    × (denote (Rep.replace_arg pair_ref 0 pair_ref)
        ≡ set_term_arg 0 (denote pair_ref) (denote pair_ref))
replace_arg-Covered_example =
    replace_arg-Covered pair_ref 0 pair_ref pair_cell-Covered pair_cell-Covered

ground-AllVars_example :
    AllVars (λ i. ⊥) (ground pair_term) × (ground (ground pair_term) ≡ ground pair_term)
ground-AllVars_example = ground-AllVars pair_term

abbrev unit_atom : Atom
unit_atom = Atom.make true 4 (Term.cons pair_term Term.nil)

atom-atoms_example :
    get_elem? (atoms (record { stored = unit_atom ∷ Atom.neg unit_atom ∷ []; id_offset = 10 })) 1
    ≡ atom (record { stored = unit_atom ∷ Atom.neg unit_atom ∷ []; id_offset = 10 }) 1
atom-atoms_example =
    atom-atoms (record { stored = unit_atom ∷ Atom.neg unit_atom ∷ []; id_offset = 10 }) 1

or_atom-or_make_example :
    or_atom (or_make (unit_atom ∷ unit_atom ∷ [])) 1
    ≡ (get_elem? (unit_atom ∷ unit_atom ∷ []) 1 >>= λ a. some (Atom.set_id 1 a))
or_atom-or_make_example = or_atom-or_make (unit_atom ∷ unit_atom ∷ []) 1
