-- ===== src/Unify/Occurs.antt =====
-- The occurs check of lazyparam_prover/mgu.h: an occurring variable cannot equal the term.

use tptp_benchmark_go.Prelude.{
  ℕ, zero, suc, ◌≤◌, ◌≡◌, ◌≢◌, inl, inr, refl, sym, ap, ◌∙◌, Bool, true, Option, none, some,
  >>=-eq-some, ◌==◌, if◌then◌else◌, Bool-cases, ==_iff, arith, subst, some_eq,
}
use tptp_benchmark_go.Memory.Rewind.{get}
use tptp_benchmark_go.Syntax.Term.{Term, var, fun, Terms, nil, cons}
use tptp_benchmark_go.Unify.{Valuation, any_var, any_var_args, has_var}
use tptp_benchmark_go.Unify.Subst.{apply, apply_args, term_size, args_size, Solves}

module _ (s : ℕ → Term) (k : ℕ) (p : ℕ → Option Bool)
    (bound : (i : ℕ) → p i ≡ some true → k ≤ term_size (s i)) where
  mutual
    unfolding any_var

    found_small : (t : Term) → any_var p t ≡ some true → k ≤ term_size (apply s t)
    found_small (var i) h = bound i h
    found_small (fun f ts) h = omega (arith, found_small_args ts h)

    found_small_args :
        (ts : Terms) → any_var_args p ts ≡ some true → k ≤ args_size (apply_args s ts)
    found_small_args nil h = cc
    found_small_args (cons t ts) h =
        let (b, e, r) =
          >>=-eq-some (any_var_args p ts) (λ b. if b then some true else any_var p t) h in
        elim (Bool-cases b) [
          | inl c ↦ omega (arith, found_small_args ts (e ∙ ap some c))
          | inr c ↦ omega (arith, found_small t (rw c at r))
        ]

bound_at :
    (n : ℕ) (val : Valuation) (v : ℕ) (s : ℕ → Term)
    → Solves s val
    → ((u : Term) → has_var n val u v ≡ some true → term_size (s v) ≤ term_size (apply s u))
    → (i : ℕ) (m : Option Term) → get val i ≡ m
    → (elim m [ none ↦ some (i == v) | some u ↦ has_var n val u v ]) ≡ some true
    → term_size (s v) ≤ term_size (s i)
bound_at n val v s sol rec i none g e =
    let same : i ≡ v = (==_iff i v).0 (some_eq e) in
    subst (λ j. term_size (s v) ≤ term_size (s j)) (sym same) (omega arith)
bound_at n val v s sol rec i (some u) g e =
    subst (λ t. term_size (s v) ≤ term_size t) (sym (sol i u g)) (rec u e)

-- A variable that occurs in a term is no larger than it, in every solution.
has_var-size :
    (n : ℕ) (val : Valuation) (t : Term) (v : ℕ) (s : ℕ → Term)
    → Solves s val
    → has_var n val t v ≡ some true
    → term_size (s v) ≤ term_size (apply s t)
unfolding has_var
has_var-size zero val t v s sol h = cc
has_var-size (suc n) val t v s sol h =
    found_small s (term_size (s v)) _
      (λ i e. bound_at n val v s sol (λ u. has_var-size n val u v s sol) i (get val i) refl e) t h

-- So a variable that occurs in the arguments of a functor is not equal to the functor's term.
pub occurs-ne :
    (n : ℕ) (val : Valuation) (f : ℕ) (ts : Terms) (v : ℕ) (s : ℕ → Term)
    → Solves s val
    → has_var n val (fun f ts) v ≡ some true
    → s v ≢ apply s (fun f ts)
unfolding has_var any_var
occurs-ne zero val f ts v s sol h e = cc
occurs-ne (suc n) val f ts v s sol h e = omega (
  arith,
  ap term_size e,
  found_small_args s (term_size (s v)) _
      (λ i e'. bound_at n val v s sol (λ u. has_var-size n val u v s sol) i (get val i) refl e') ts
      h,
)
