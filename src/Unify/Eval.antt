-- ===== src/Unify/Eval.antt =====
-- Evaluation of terms under a valuation (`eval` of lazyparam_prover/mgu.h).
use tptp_benchmark_go.Prelude.{
  ℕ, zero, suc, ◌≡◌, refl, sym, ap, ap₂, ◌∙◌, Option, none, some, ◌>>=◌, >>=-eq-some, some_eq,
  subst,
}
use tptp_benchmark_go.Memory.Rewind.{get}
use tptp_benchmark_go.Syntax.Term.{Term, Terms, var, fun, nil, cons, AllVars, AllVarsArgs}
use tptp_benchmark_go.Unify.{Valuation, replace_vars, replace_vars_args, eval}
use tptp_benchmark_go.Unify.Subst.{apply, apply_args, Solves}

-- A term without bound variables.
abbrev pub Resolved : Valuation → Term → Type 0
Resolved val = AllVars (λ i. get val i ≡ none)

abbrev ResolvedArgs : Valuation → Terms → Type 0
ResolvedArgs val = AllVarsArgs (λ i. get val i ≡ none)

module _ (val : Valuation) (s : ℕ → Term) (f : ℕ → Option Term)
    (ok : (i : ℕ) (u : Term) → f i ≡ some u → (apply s u ≡ s i) × Resolved val u) where
  mutual
    unfolding replace_vars replace_vars_args

    replaced : (t u : Term) → replace_vars f t ≡ some u → (apply s u ≡ apply s t) × Resolved val u
    replaced (var i) u h = ok i u h
    replaced (fun g ts) u h =
        let (us, p, q) = >>=-eq-some (replace_vars_args f ts) (λ us. some (fun g us)) h in
        let (same, all) = replaced_args ts us p in
        subst (λ u. (apply s u ≡ apply s (fun g ts)) × Resolved val u) (some_eq q)
          (ap (fun g) same, all)

    replaced_args :
        (ts us : Terms)
        → replace_vars_args f ts ≡ some us
        → (apply_args s us ≡ apply_args s ts) × ResolvedArgs val us
    replaced_args nil us h =
        subst (λ us. (apply_args s us ≡ nil) × ResolvedArgs val us) (some_eq h) (refl, tt)
    replaced_args (cons t ts) us h =
        let (v, p, q) =
          >>=-eq-some (replace_vars f t) (λ u. replace_vars_args f ts >>= λ us. some (cons u us))
            h in
        let (vs, p', q') = >>=-eq-some (replace_vars_args f ts) (λ us. some (cons v us)) q in
        let (same, all) = replaced t v p in
        let (same', all') = replaced_args ts vs p' in
        subst (λ us. (apply_args s us ≡ apply_args s (cons t ts)) × ResolvedArgs val us)
          (some_eq q') (ap₂ cons same same', (all, all'))

-- one variable, given the claim for the terms that variables are bound to
eval_var :
    (n : ℕ) (val : Valuation) (s : ℕ → Term)
    → Solves s val
    → ((t u : Term) → eval n val t ≡ some u → (apply s u ≡ apply s t) × Resolved val u)
    → (i : ℕ) (u : Term)
    → (elim (get val i) [ none ↦ some (var i) | some v ↦ eval n val v ]) ≡ some u
    → (apply s u ≡ s i) × Resolved val u
eval_var n val s sol later i u h = go (get val i) refl h
  where
    go :
        (m : Option Term)
        → get val i ≡ m
        → (elim m [ none ↦ some (var i) | some v ↦ eval n val v ]) ≡ some u
        → (apply s u ≡ s i) × Resolved val u
    go none e h = subst (λ u. (apply s u ≡ s i) × Resolved val u) (some_eq h) (refl, e)
    go (some v) e h = let (same, all) = later v u h in (same ∙ sym (sol i v e), all)

-- The term that `eval` returns has no bound variable, and every solution of the valuation makes
-- the same term of it as of the one that was evaluated.
pub eval-Resolved :
    (n : ℕ) (val : Valuation) (s : ℕ → Term)
    → Solves s val
    → (t u : Term) → eval n val t ≡ some u
    → (apply s u ≡ apply s t) × Resolved val u
unfolding eval
eval-Resolved zero val s sol t u h = absurd (cc h)
eval-Resolved (suc n) val s sol t u h =
    replaced val s _ (λ i u h. eval_var n val s sol (eval-Resolved n val s sol) i u h) t u h
