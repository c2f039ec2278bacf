-- ===== src/Axioms/Flatten.antt =====
-- `FlatClauseBuilder` of lazyparam_prover/eq_axioms.h: every argument that is not a variable is
-- replaced by a new variable, and the clauses that justify this are added to the sources.
pub mod Derives
use tptp_benchmark_go.Prelude.{
  ℕ, ◌+◌, Bool, true, false, not, Option, none, some, ◌>>=◌, ◌==◌, if◌then◌else◌, List, [], ◌∷◌,
  ◌++◌, reverse, map,
}
use tptp_benchmark_go.Syntax.Range.{VarRange}
use tptp_benchmark_go.Syntax.Term.{Term, Terms, var, fun, nil, cons}
use tptp_benchmark_go.Syntax.Atom
use tptp_benchmark_go.Syntax.Atom.{Atom, eq_pred}
use tptp_benchmark_go.Syntax.Clause
use tptp_benchmark_go.Syntax.Clause.{AndClause, make, atoms}
use tptp_benchmark_go.Derived
use tptp_benchmark_go.Derived.{DerAndClause, OrForm, derived, sources, cost}

pub record FlatClauseBuilder : Type 0 where
  pub var_count : ℕ
  pub atoms : List Atom
  pub source_clauses : List AndClause
  pub cost : ℕ

unfoldable pub push_atom : Atom → FlatClauseBuilder → FlatClauseBuilder
push_atom a b = record b { atoms = b.atoms ++ (a ∷ []) }

unfoldable pub push_source : List Atom → FlatClauseBuilder → FlatClauseBuilder
push_source l b = record b { source_clauses = b.source_clauses ++ (make l ∷ []) }

-- `Atom::eq(A,true,f.arg(i),v_i)` for all arguments, before the atoms of `l`
unfoldable pub arg_equations : Terms → Terms → List Atom → List Atom
arg_equations nil us l = l
arg_equations (cons t ts) nil l = l
arg_equations (cons t ts) (cons u us) l = Atom.eq true t u ∷ arg_equations ts us l

-- the end of `flatten_Term`, for the new arguments `us`
unfoldable pub push_congruence : ℕ → Terms → Terms → FlatClauseBuilder → FlatClauseBuilder
unfolding push_source arg_equations
push_congruence f ts us b =
    push_source (arg_equations ts us (Atom.eq false (fun f ts) (fun f us) ∷ [])) b

-- the end of `introduce_var` on a functor: the new variable and the equation that defines it
unfoldable pub define_var : ℕ → Terms → Terms → FlatClauseBuilder → ℕ × FlatClauseBuilder
unfolding push_atom push_source
define_var f ts us b =
    let x = var b.var_count in
    let fv_x = Atom.eq true (fun f us) x in
    let fa_x = Atom.eq true (fun f ts) x in
    let counted = record b { var_count = b.var_count + 1 } in
    let sourced =
      push_source (Atom.eq true (fun f ts) (fun f us) ∷ fv_x ∷ Atom.neg fa_x ∷ []) counted in
    (b.var_count, push_atom fv_x sourced)

-- `introduce_var(t)`, and the loop over arguments
unfoldable mutual
  unfolding push_source push_congruence define_var

  pub introduce_var : Term → FlatClauseBuilder → ℕ × FlatClauseBuilder
  introduce_var (var i) b = (i, push_source (Atom.eq false (var i) (var i) ∷ []) b)
  introduce_var (fun f ts) b =
      let (us, c) = introduce_vars ts b in define_var f ts us (push_congruence f ts us c)

  pub introduce_vars : Terms → FlatClauseBuilder → Terms × FlatClauseBuilder
  introduce_vars nil b = (nil, b)
  introduce_vars (cons t ts) b =
      let (i, c) = introduce_var t b in let (us, d) = introduce_vars ts c in (cons (var i) us, d)

-- `flatten_Term`: the new arguments
unfoldable pub flatten_term : ℕ → Terms → FlatClauseBuilder → Terms × FlatClauseBuilder
unfolding introduce_vars push_congruence
flatten_term f ts b = let (us, c) = introduce_vars ts b in (us, push_congruence f ts us c)

-- the left side of an equation with this sign
unfoldable pub flatten_left : Bool → Term → Term → FlatClauseBuilder → Term × FlatClauseBuilder
unfolding flatten_term push_source
flatten_left sign (var i) r b = (var i, b)
flatten_left sign (fun f ts) r b =
    let (us, c) = flatten_term f ts b in
    (
      fun f us,
      push_source
          (Atom.eq true (fun f ts) (fun f us)
            ∷ Atom.eq sign (fun f us) r
            ∷ Atom.eq (not sign) (fun f ts) r
            ∷ [])
          c,
    )

unfoldable pub flatten_right : Bool → Term → Term → FlatClauseBuilder → Term × FlatClauseBuilder
unfolding flatten_term push_source
flatten_right sign l (var i) b = (var i, b)
flatten_right sign l (fun f ts) b =
    let (us, c) = flatten_term f ts b in
    (
      fun f us,
      push_source
          (Atom.eq true (fun f ts) (fun f us)
            ∷ Atom.eq sign l (fun f us)
            ∷ Atom.eq (not sign) l (fun f ts)
            ∷ [])
          c,
    )

-- `none` is a read past the end of the arguments of an equation
unfoldable pub flatten_equation : Bool → Terms → FlatClauseBuilder → Option FlatClauseBuilder
unfolding flatten_left flatten_right push_atom
flatten_equation sign nil b = none
flatten_equation sign (cons l nil) b = none
flatten_equation sign (cons l (cons r ts)) b =
    let (l', c) = flatten_left sign l r b in
    let (r', d) = flatten_right sign l' r c in some (push_atom (Atom.eq sign l' r') d)

unfoldable pub flatten_other : Atom → FlatClauseBuilder → FlatClauseBuilder
unfolding introduce_vars arg_equations push_atom push_source
flatten_other a b =
    let (us, c) = introduce_vars a.args b in
    let pv = Atom.build a.sign a.pred us a.strong_only in
    push_atom pv (push_source (arg_equations a.args us (Atom.neg a ∷ pv ∷ [])) c)

-- `flatten_Atom`
unfoldable pub flatten_atom : Atom → FlatClauseBuilder → Option FlatClauseBuilder
unfolding flatten_equation flatten_other
flatten_atom a b =
    if a.pred == eq_pred then flatten_equation a.sign a.args b else some (flatten_other a b)

-- the constructor's loop, from the last atom to the first
unfoldable pub flatten_atoms : List Atom → FlatClauseBuilder → Option FlatClauseBuilder
unfolding flatten_atom
flatten_atoms [] b = some b
flatten_atoms (a ∷ l) b = flatten_atoms l b >>= flatten_atom a

-- `FlatClauseBuilder(A, cla)` before the loop
unfoldable pub start : DerAndClause → FlatClauseBuilder
start c = record {
  var_count = (Clause.var_range (derived c)).end;
  atoms = [];
  source_clauses = sources c;
  cost = cost c;
}

unfoldable pub flat_builder : DerAndClause → Option FlatClauseBuilder
unfolding start flatten_atoms
flat_builder c = flatten_atoms (atoms (derived c)) (start c)

unfoldable pub build : FlatClauseBuilder → DerAndClause
build b = Derived.build (record {
  offset = 0;
  id_offset = 0;
  cost = b.cost;
  derived = make b.atoms;
  sources = b.source_clauses;
  constraints = [];
})

-- `flatten_OrForm`
unfoldable pub flatten_form : OrForm → Option OrForm
unfolding flat_builder build
flatten_form [] = some []
flatten_form (c ∷ cs) = flat_builder c >>= λ b. flatten_form cs >>= λ ds. some (build b ∷ ds)
