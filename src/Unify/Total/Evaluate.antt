-- ===== src/Unify/Total/Evaluate.antt =====
-- Evaluation (`eval` of lazyparam_prover/mgu.h) ends under a valuation without cycles.
use tptp_benchmark_go.Prelude.{
  ℕ, zero, suc, ◌<◌, ◌≡◌, refl, sym, ◌∙◌, Option, none, some, arith, some_eq,
}
use tptp_benchmark_go.Memory.Rewind.{get}
use tptp_benchmark_go.Syntax.Term.{Term, Terms, var, fun, nil, cons, AllVars, AllVarsArgs}
use tptp_benchmark_go.Syntax.Term.Laws.{AllVars-mono}
use tptp_benchmark_go.Unify.{Valuation, replace_vars, replace_vars_args, eval}
use tptp_benchmark_go.Unify.Subst.{Solves, apply, apply_args}
use tptp_benchmark_go.Unify.Settle.{SettlesAt, Settles, Settles-suc}
use tptp_benchmark_go.Unify.Acyclic.{Acyclic, Under, Under-bound, Under-mono}
use tptp_benchmark_go.Unify.Eval.{Resolved, eval-Resolved}

-- The variable is replaced, with fuel `k` or more.
abbrev Replaced : ℕ → (ℕ → ℕ → Option Term) → ℕ → Type 0
Replaced k p i = (u : Term) × SettlesAt k (λ n. p n i) u

mutual
  unfolding replace_vars replace_vars_args

  replace-Settles :
      (k : ℕ) (p : ℕ → ℕ → Option Term) (t : Term)
      → AllVars (Replaced k p) t
      → (u : Term) × SettlesAt k (λ n. replace_vars (p n) t) u
  replace-Settles k p (var i) h = h
  replace-Settles k p (fun f ts) h =
      let (us, s) = replace_args-Settles k p ts h in (fun f us, λ n g. rw (s n g) refl)

  replace_args-Settles :
      (k : ℕ) (p : ℕ → ℕ → Option Term) (ts : Terms)
      → AllVarsArgs (Replaced k p) ts
      → (us : Terms) × SettlesAt k (λ n. replace_vars_args (p n) ts) us
  replace_args-Settles k p nil h = (nil, λ n g. refl)
  replace_args-Settles k p (cons t ts) h =
      let (u, s) = replace-Settles k p t h.0 in
      let (us, r) = replace_args-Settles k p ts h.1 in (cons u us, λ n g. rw (s n g, r n g) refl)

mutual
  unfolding replace_vars replace_vars_args

  replaced_by :
      (s : ℕ → Term) (p : ℕ → Option Term) (t : Term)
      → AllVars (λ i. p i ≡ some (s i)) t
      → replace_vars p t ≡ some (apply s t)
  replaced_by s p (var i) h = h
  replaced_by s p (fun f ts) h = rw (replaced_args_by s p ts h) refl

  replaced_args_by :
      (s : ℕ → Term) (p : ℕ → Option Term) (ts : Terms)
      → AllVarsArgs (λ i. p i ≡ some (s i)) ts
      → replace_vars_args p ts ≡ some (apply_args s ts)
  replaced_args_by s p nil h = refl
  replaced_args_by s p (cons t ts) h = rw (replaced_by s p t h.0, replaced_args_by s p ts h.1) refl

module _ (val : Valuation) (a : Acyclic val) where
  -- one variable of `eval`
  abbrev value_of : ℕ → ℕ → Option Term
  value_of n i = elim (get val i) [ none ↦ some (var i) | some u ↦ eval n val u ]

  value-Replaced :
      (k i : ℕ)
      → a.rank i < suc k
      → ((u : Term) → Under a.rank k u → (v : Term) × SettlesAt k (λ n. eval (suc n) val u) v)
      → Replaced (suc k) value_of i
  value-Replaced k i p rec = go (get val i) refl
    where
      later :
          (u v : Term)
          → SettlesAt k (λ n. eval (suc n) val u) v
          → SettlesAt (suc k) (λ n. eval n val u) v
      later u v s zero g = absurd (omega arith)
      later u v s (suc n) g = s n (omega arith)

      go :
          (m : Option Term)
          → get val i ≡ m
          → (v : Term) × SettlesAt
              (suc k)
              (λ n. elim m [ none ↦ some (var i) | some u ↦ eval n val u ])
              v
      go none e = (var i, λ n g. refl)
      go (some u) e =
          let (v, s) = rec u (Under-mono a.rank (a.rank i) k u (omega arith) (a.falls i u e)) in
          (v, later u v s)

  eval-Settles :
      (k : ℕ) (t : Term) → Under a.rank k t → (u : Term) × SettlesAt k (λ n. eval (suc n) val t) u
  unfolding eval
  eval-Settles zero t h =
      replace-Settles zero value_of t (
        AllVars-mono (λ i. a.rank i < 0) (Replaced zero value_of) (λ i p. absurd (omega arith)) t h)
  eval-Settles (suc k) t h = replace-Settles (suc k) value_of t (
      AllVars-mono (λ i. a.rank i < suc k) (Replaced (suc k) value_of)
        (λ i p. value-Replaced k i p (λ u q. eval-Settles k u q)) t h)

  at_var : (i : ℕ) → (u : Term) × SettlesAt (suc (a.rank i)) (λ n. eval (suc n) val (var i)) u
  at_var i = eval-Settles (suc (a.rank i)) (var i) (omega arith)

  -- the value of each variable
  abbrev solution : ℕ → Term
  solution i = (at_var i).0

  eval-var : (n i : ℕ) → eval (suc n) val (var i) ≡ value_of n i
  unfolding eval replace_vars
  eval-var n i = refl

  value-solution : (n i : ℕ) → a.rank i < n → value_of n i ≡ some (solution i)
  value-solution n i h = sym (eval-var n i) ∙ (at_var i).1 n (omega arith)

  value_bound :
      (n i : ℕ) (t : Term) → get val i ≡ some t → value_of (suc n) i ≡ replace_vars (value_of n) t
  unfolding eval
  value_bound n i t e = rw (value_of, e) refl

  solution-Solves : Solves solution val
  solution-Solves i t e =
      let n = a.rank i in
      some_eq (
        sym (value-solution (suc n) i (omega arith))
        ∙ value_bound n i t e
        ∙ replaced_by solution (value_of n) t (
            AllVars-mono (λ j. a.rank j < n) (λ j. value_of n j ≡ some (solution j))
              (λ j h. value-solution n j h) t (a.falls i t e)))

-- A valuation without cycles has a solution.
pub Acyclic-Solves : (val : Valuation) → Acyclic val → (s : ℕ → Term) × Solves s val
Acyclic-Solves val a = (solution val a, solution-Solves val a)

-- Under a valuation without cycles `eval` returns, with the same term for all fuel from some
-- amount on. The term has no bound variable, and every solution of the valuation makes the same
-- term of it as of the one that was evaluated.
pub eval_total :
    (val : Valuation)
    → Acyclic val
    → (t : Term)
    → (u : Term) × Settles (λ n. eval n val t) u
      × Resolved val u
      × ((s : ℕ → Term) → Solves s val → apply s u ≡ apply s t)
eval_total val a t =
    let (k, below) = Under-bound a.rank t in
    let (u, at_k) = eval-Settles val a k t below in
    let (m, s) = Settles-suc (λ n. eval n val t) (k, at_k) in
    (
      u,
      (m, s),
      (eval-Resolved m val (solution val a) (solution-Solves val a) t u (s m (omega arith))).1,
      λ sub sol. (eval-Resolved m val sub sol t u (s m (omega arith))).0,
    )
