-- ===== src/Unify.antt =====
-- `Valuation` of lazyparam_prover/mgu.h: a triangular substitution in a `RewindArray`, with
-- unification, equality and evaluation under it.
-- The source follows variable bindings by unbounded loops and recursion. Here every function that
-- does takes fuel, one unit for each binding followed and each level of recursion into a pair of
-- terms; `none` means that the fuel ran out, or that an argument past the end was read (functors
-- with different numbers of arguments).
pub mod Subst
pub mod Occurs
pub mod Outcome
pub mod Solve
pub mod Settle
pub mod Acyclic
pub mod Total
pub mod Atoms
pub mod Eval
use tptp_benchmark_go.Prelude.{
  ℕ, zero, suc, ◌+◌, ◌-◌, Bool, true, false, Option, none, some, ◌>>=◌, ◌==◌, if◌then◌else◌, List,
  [], ◌∷◌, map,
}
use tptp_benchmark_go.Memory.Rewind.{RewindArray, get, size, grow, put, save, restore}
use tptp_benchmark_go.Syntax.Range.{VarRange}
use tptp_benchmark_go.Syntax.Term
use tptp_benchmark_go.Syntax.Term.{Term, var, fun, Terms, nil, cons}
use tptp_benchmark_go.Syntax.Atom.{Atom, build}
use tptp_benchmark_go.Syntax.Clause.{AndClause, make}

abbrev pub Valuation : Type 0
Valuation = RewindArray Term

-- `t.shift(val.size() - r.begin)`: the unsigned difference may wrap, and the sum of it and an id
-- of the range wraps back, so the id `i` becomes `i + val.size() - r.begin`.
unfoldable pub relocate : ℕ → ℕ → Term → Term
relocate size begin = Term.rename (λ i. i + size - begin)

-- `allocate(t)` for a term: its variables move behind all those of the valuation.
unfoldable pub allocate : Valuation → Term → Term × Valuation
unfolding relocate grow
allocate val t =
    let r = Term.var_range t in
    (relocate (size val) r.begin t, grow (size val + r.end - r.begin) val)

-- The walk over a term that stops at the first variable, from the last argument on, for which
-- `p` answers `true`.
unfoldable mutual
  pub any_var : (ℕ → Option Bool) → Term → Option Bool
  any_var p (var i) = p i
  any_var p (fun f ts) = any_var_args p ts

  pub any_var_args : (ℕ → Option Bool) → Terms → Option Bool
  any_var_args p nil = some false
  any_var_args p (cons t ts) = any_var_args p ts >>= λ b. if b then some true else any_var p t

unfoldable pub has_var : ℕ → Valuation → Term → ℕ → Option Bool
has_var zero val t v = none
has_var (suc n) val t v =
    any_var (λ i. elim (get val i) [ none ↦ some (i == v) | some u ↦ has_var n val u v ]) t

-- `shallow_eval`, which is also the loop at the head of `assign` and `equal`
unfoldable pub shallow_eval : ℕ → Valuation → Term → Option Term
shallow_eval zero val t = none
shallow_eval (suc n) val (fun f ts) = some (fun f ts)
shallow_eval (suc n) val (var i) = elim (get val i) [
  | none ↦ some (var i)
  | some u ↦ shallow_eval n val u
]

-- the switch of `assign`
unfoldable pub assign_root : ℕ → Valuation → ℕ → Term → Option (Bool × Valuation)
assign_root n val v (var j) = if j == v then some (true, val) else some (true, put v (var j) val)
assign_root n val v (fun f ts) = has_var n val (fun f ts) v >>= λ c.
    if c then some (false, val) else some (true, put v (fun f ts) val)

unfoldable pub assign : ℕ → Valuation → ℕ → Term → Option (Bool × Valuation)
unfolding assign_root
assign n val v t = shallow_eval n val t >>= λ u. assign_root n val v u

-- `for (i = 0; i < ac; ++i) if (!mgu(xf.arg(i), yf.arg(i))) return 0;`
unfoldable pub mgu_args :
    (Valuation → Term → Term → Option (Bool × Valuation))
    → Valuation
    → Terms
    → Terms
    → Option (Bool × Valuation)
mgu_args rec val nil us = some (true, val)
mgu_args rec val (cons t ts) nil = none
mgu_args rec val (cons t ts) (cons u us) =
    rec val t u >>= λ r. if r.0 then mgu_args rec (r.1) ts us else some (false, r.1)

-- the cases of `mgu`, with the recursive call as a parameter
unfoldable pub mgu_step :
    (Valuation → Term → Term → Option (Bool × Valuation))
    → ℕ
    → Valuation
    → Term
    → Term
    → Option (Bool × Valuation)
unfolding mgu_args assign
mgu_step rec n val (var i) y = elim (get val i) [ none ↦ assign n val i y | some t ↦ rec val t y ]
mgu_step rec n val (fun f ts) (fun g us) =
    if f == g then mgu_args rec val ts us else some (false, val)
mgu_step rec n val (fun f ts) (var j) = elim (get val j) [
  | none ↦ assign n val j (fun f ts)
  | some t ↦ rec val t (fun f ts)
]

unfoldable pub mgu : ℕ → Valuation → Term → Term → Option (Bool × Valuation)
unfolding mgu_step
mgu zero val x y = none
mgu (suc n) val x y = mgu_step (mgu n) n val x y

-- the loop of `mgu` on atoms, which goes from the last argument to the first
unfoldable pub mgu_down : ℕ → Valuation → Terms → Terms → Option (Bool × Valuation)
unfolding mgu
mgu_down n val nil us = some (true, val)
mgu_down n val (cons t ts) nil = none
mgu_down n val (cons t ts) (cons u us) =
    mgu_down n val ts us >>= λ r. if r.0 then mgu n (r.1) t u else some (false, r.1)

-- `mgu` on atoms: the signs are ignored, and a failure restores the valuation
unfoldable pub mgu_atom : ℕ → Valuation → Atom → Atom → Option (Bool × Valuation)
unfolding mgu_down
mgu_atom n val x y =
    if x.pred == y.pred
    then (mgu_down n val x.args y.args >>= λ r.
        if r.0 then some r else some (false, restore (save val) r.1))
    else some (false, val)

-- the arguments from the last to the first
unfoldable pub equal_args : (Term → Term → Option Bool) → Terms → Terms → Option Bool
equal_args rec nil us = some true
equal_args rec (cons t ts) nil = none
equal_args rec (cons t ts) (cons u us) =
    equal_args rec ts us >>= λ b. if b then rec t u else some false

unfoldable pub equal_roots : (Term → Term → Option Bool) → Term → Term → Option Bool
unfolding equal_args
equal_roots rec (var i) (var j) = some (i == j)
equal_roots rec (var i) (fun g us) = some false
equal_roots rec (fun f ts) (var j) = some false
equal_roots rec (fun f ts) (fun g us) = if f == g then equal_args rec ts us else some false

unfoldable pub equal : ℕ → Valuation → Term → Term → Option Bool
unfolding equal_roots
equal zero val x y = none
equal (suc n) val x y =
    shallow_eval n val x >>= λ x'. shallow_eval n val y >>= λ y'. equal_roots (equal n val) x' y'

unfoldable pub equal_mod_sign : ℕ → Valuation → Atom → Atom → Option Bool
unfolding equal_args
equal_mod_sign n val x y =
    if x.pred == y.pred then equal_args (equal n val) x.args y.args else some false

-- A term rebuilt with each variable replaced by what `s` gives.
unfoldable mutual
  pub replace_vars : (ℕ → Option Term) → Term → Option Term
  replace_vars s (var i) = s i
  replace_vars s (fun f ts) = replace_vars_args s ts >>= λ us. some (fun f us)

  pub replace_vars_args : (ℕ → Option Term) → Terms → Option Terms
  replace_vars_args s nil = some nil
  replace_vars_args s (cons t ts) =
      replace_vars s t >>= λ u. replace_vars_args s ts >>= λ us. some (cons u us)

unfoldable pub eval : ℕ → Valuation → Term → Option Term
unfolding replace_vars
eval zero val t = none
eval (suc n) val t =
    replace_vars (λ i. elim (get val i) [ none ↦ some (var i) | some u ↦ eval n val u ]) t

-- rebuilt, so the id is 0
unfoldable pub eval_atom : ℕ → Valuation → Atom → Option Atom
unfolding replace_vars
eval_atom n val a =
    eval n val (fun a.pred a.args)
    >>= elim [ var i ↦ none | fun p ts ↦ some (build a.sign p ts a.strong_only) ]

unfoldable pub eval_atoms : ℕ → Valuation → List Atom → Option (List Atom)
unfolding eval_atom
eval_atoms n val [] = some []
eval_atoms n val (a ∷ l) = eval_atom n val a >>= λ b. eval_atoms n val l >>= λ m. some (b ∷ m)

unfoldable pub eval_clause : ℕ → Valuation → AndClause → Option AndClause
unfolding eval_atoms
eval_clause n val c = eval_atoms n val c.stored >>= λ l. some (make l)
