-- ===== src/Syntax/Ground.antt =====
-- lazyparam_prover/ground.h: every variable replaced by one extra constant.
use tptp_benchmark_go.Prelude.{ℕ, ◌-◌, ◌^◌, ◌≡◌, refl, ap, ap₂, map}
use tptp_benchmark_go.Syntax.Term.{Term, var, fun, Terms, nil, cons, AllVars, AllVarsArgs}
use tptp_benchmark_go.Syntax.Atom.{Atom, build}
use tptp_benchmark_go.Syntax.Clause.{AndClause, make}

-- `Fun::EXTRA_CONST`
abbrev pub extra_const : ℕ
extra_const = 2 ^ 64 - 1

unfoldable mutual
  pub ground : Term → Term
  ground (var i) = fun extra_const nil
  ground (fun f ts) = fun f (ground_args ts)

  pub ground_args : Terms → Terms
  ground_args nil = nil
  ground_args (cons t ts) = cons (ground t) (ground_args ts)

-- built anew, so the id is 0
unfoldable pub ground_atom : Atom → Atom
ground_atom a = build a.sign a.pred (ground_args a.args) a.strong_only

unfoldable pub ground_clause : AndClause → AndClause
ground_clause c = make (map ground_atom c.stored)

-- `t` with every variable replaced by the extra constant has no variable, and grounding it again
-- changes nothing.
mutual
  unfolding ground

  no_vars_left : (t : Term) → AllVars (λ i. ⊥) (ground t) × (ground (ground t) ≡ ground t)
  no_vars_left (var i) = (tt, refl)
  no_vars_left (fun f ts) = let (p, q) = no_vars_left_args ts in (p, ap (fun f) q)

  no_vars_left_args :
      (ts : Terms)
      → AllVarsArgs (λ i. ⊥) (ground_args ts) × (ground_args (ground_args ts) ≡ ground_args ts)
  no_vars_left_args nil = (tt, refl)
  no_vars_left_args (cons t ts) =
      let (p, q) = no_vars_left t in let (r, s) = no_vars_left_args ts in ((p, r), ap₂ cons q s)

-- `ground` leaves no variable, and grounding again changes nothing.
pub ground-AllVars : (t : Term) → AllVars (λ i. ⊥) (ground t) × (ground (ground t) ≡ ground t)
ground-AllVars t = no_vars_left t
