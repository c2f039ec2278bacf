-- ===== src/Order/Lpo.antt =====
-- lazyparam_prover/lpo.h: the lexicographic path order under a valuation.
-- As in `Unify`, `none` means that the fuel ran out or that an argument past the end was read.
pub mod Below
pub mod Sound
pub mod Total
use tptp_benchmark_go.Prelude.{
  ℕ, zero, suc, Bool, true, false, Option, none, some, ◌>>=◌, ◌==◌, if◌then◌else◌,
}
use tptp_benchmark_go.Syntax.Term.{Term, var, fun, Terms, nil, cons}
use tptp_benchmark_go.Unify.{Valuation, has_var, shallow_eval, equal}
use tptp_benchmark_go.Order.FunOrd.{FunOrd}
use tptp_benchmark_go.Order.FunOrd
use tptp_benchmark_go.Order.Constraint.{Relation, l, g, e, u}

-- The state of a comparison of two functors after the common prefix: whether the first
-- different argument of `a` is less, and the arguments behind it.
pub record Prefix : Type 0 where
  pub lex : Bool
  pub rest_a : Terms
  pub rest_b : Terms

abbrev pub stop_at : Terms → Terms → Bool → Option (Option Prefix)
stop_at ts us x = some (some (record { lex = x; rest_a = ts; rest_b = us }))

-- `for (; i < n; i++) if (!val.equal(a.arg(i), b.arg(i))) break;` and the comparison there;
-- `some none` means that all arguments are equal.
unfoldable pub first_diff :
    (Term → Term → Option Bool)
    → (Term → Term → Option Bool)
    → Terms
    → Terms
    → Option (Option Prefix)
first_diff eq rec nil us = some none
first_diff eq rec (cons t ts) nil = none
first_diff eq rec (cons t ts) (cons s us) =
    let rest = first_diff eq rec ts us in
    eq t s >>= λ same. if same then rest else (rec t s >>= stop_at ts us)

-- `for (; i < n; i++) if (!less(a.arg(i), b)) return false; return true;`
unfoldable pub all_less : (Term → Term → Option Bool) → Terms → Term → Option Bool
all_less rec nil b = some true
all_less rec (cons t ts) b =
    let rest = all_less rec ts b in rec t b >>= λ x. if x then rest else some false

-- `for (; i < n; i++) if (equal(a, b.arg(i)) || less(a, b.arg(i))) return true; return false;`
unfoldable pub any_above :
    (Term → Term → Option Bool) → (Term → Term → Option Bool) → Term → Terms → Option Bool
any_above eq rec a nil = some false
any_above eq rec a (cons s us) =
    let rest = any_above eq rec a us in
    eq a s >>= λ x. if x then some true else (rec a s >>= λ y. if y then some true else rest)

-- the two loops after the prefix
unfoldable pub less_rest :
    (Term → Term → Option Bool)
    → (Term → Term → Option Bool)
    → Term
    → Term
    → Bool
    → Terms
    → Terms
    → Option Bool
unfolding all_less any_above
less_rest eq rec a b lex ts us = if lex then all_less rec ts b else any_above eq rec a us

-- `less(Fun a, Fun b)`
unfoldable pub less_fun :
    (Term → Term → Option Bool)
    → (Term → Term → Option Bool)
    → FunOrd
    → ℕ
    → Terms
    → ℕ
    → Terms
    → Option Bool
unfolding first_diff less_rest
less_fun eq rec ord f ts h us =
    if f == h
    then (first_diff eq rec ts us >>= elim [
      | none ↦ some false
      | some p ↦ less_rest eq rec (fun f ts) (fun h us) p.lex p.rest_a p.rest_b
    ])
    else less_rest eq rec (fun f ts) (fun h us) (FunOrd.less ord f h) ts us

-- the switch of `less(Term a, Term b)` on the evaluated terms
unfoldable pub less_roots :
    (Term → Term → Option Bool)
    → (Term → Term → Option Bool)
    → (Term → ℕ → Option Bool)
    → FunOrd
    → Term
    → Term
    → Option Bool
unfolding less_fun
less_roots eq rec occurs ord a (var j) = some false
less_roots eq rec occurs ord (var i) (fun h us) = occurs (fun h us) i
less_roots eq rec occurs ord (fun f ts) (fun h us) = less_fun eq rec ord f ts h us

unfoldable pub less : ℕ → FunOrd → Valuation → Term → Term → Option Bool
unfolding less_roots
less zero ord val a b = none
less (suc n) ord val a b = shallow_eval n val b >>= λ b'. shallow_eval n val a >>= λ a'.
    less_roots (equal n val) (less n ord val) (has_var n val) ord a' b'

-- `LPO::cmp`
unfoldable pub cmp : ℕ → FunOrd → Valuation → Term → Term → Option Relation
unfolding less
cmp n ord val a b = equal n val a b >>= λ same.
    if same
    then some e
    else (less n ord val a b >>= λ x.
        if x then some l else (less n ord val b a >>= λ y. if y then some g else some u))
