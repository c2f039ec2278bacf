-- ===== src/Unify/Subst.antt =====
-- Substitutions, the specification of what a `Valuation` (lazyparam_prover/mgu.h) stands for.
use tptp_benchmark_go.Prelude.{
  ℕ, suc, ◌+◌, ◌<◌, ◌≡◌, ◌↔◌, ◌≢◌, sym, ap, ◌∙◌, none, some, get_elem?-set_self, get_elem?-set_ne,
  length-set, subst, some_eq,
}
use native.Mathlib.Decide.{ℕ_discrete}
use tptp_benchmark_go.Memory.Rewind.{RewindArray, get, size, put}
use tptp_benchmark_go.Syntax.Term.{Term, var, fun, Terms, nil, cons, arg_count}

abbrev mutual
  pub apply : (ℕ → Term) → Term → Term
  apply s (var i) = s i
  apply s (fun f ts) = fun f (apply_args s ts)

  pub apply_args : (ℕ → Term) → Terms → Terms
  apply_args s nil = nil
  apply_args s (cons t ts) = cons (apply s t) (apply_args s ts)

-- the number of symbols of a term
abbrev mutual
  pub term_size : Term → ℕ
  term_size (var i) = 1
  term_size (fun f ts) = suc (args_size ts)

  pub args_size : Terms → ℕ
  args_size nil = 0
  args_size (cons t ts) = term_size t + args_size ts

-- `s` makes every variable equal to what the valuation binds it to.
abbrev pub Solves : (ℕ → Term) → RewindArray Term → Type 0
Solves s val = (i : ℕ) (t : Term) → get val i ≡ some t → s i ≡ apply s t

-- All variables of the term are below `n`, and each functor has as many arguments as `ar` says.
abbrev mutual
  pub WellFormed : (ℕ → ℕ) → ℕ → Term → Type 0
  WellFormed ar n (var i) = i < n
  WellFormed ar n (fun f ts) = (arg_count ts ≡ ar f) × WellFormedArgs ar n ts

  pub WellFormedArgs : (ℕ → ℕ) → ℕ → Terms → Type 0
  WellFormedArgs ar n nil = Unit
  WellFormedArgs ar n (cons t ts) = WellFormed ar n t × WellFormedArgs ar n ts

-- A well-formed term over the variables of the valuation.
abbrev pub Known : (ℕ → ℕ) → RewindArray Term → Term → Type 0
Known ar val t = WellFormed ar (size val) t

abbrev pub KnownArgs : (ℕ → ℕ) → RewindArray Term → Terms → Type 0
KnownArgs ar val ts = WellFormedArgs ar (size val) ts

-- The valuation binds its variables to well-formed terms over its variables.
abbrev pub Closed : (ℕ → ℕ) → RewindArray Term → Type 0
Closed ar val = (i : ℕ) (t : Term) → get val i ≡ some t → Known ar val t

pub size-put : (v : ℕ) (t : Term) (val : RewindArray Term) → size (put v t val) ≡ size val
unfolding size put
size-put v t val = length-set val.cells v (some t)

pub get-put_self :
    (v : ℕ) (t : Term) (val : RewindArray Term) → v < size val → get (put v t val) v ≡ some t
unfolding get put size
get-put_self v t val h = rw (get_elem?-set_self val.cells v (some t) h, get)

pub get-put_ne :
    (v i : ℕ) (t : Term) (val : RewindArray Term) → v ≢ i → get (put v t val) i ≡ get val i
unfolding get put
get-put_ne v i t val h = rw (get_elem?-set_ne val.cells v i (some t) h, get)

pub Known-put :
    (ar : ℕ → ℕ) (v : ℕ) (t u : Term) (val : RewindArray Term)
    → Known ar val u
    → Known ar (put v t val) u
Known-put ar v t u val h = subst (λ n. WellFormed ar n u) (sym (size-put v t val)) h

pub Closed-put :
    (ar : ℕ → ℕ) (v : ℕ) (t : Term) (val : RewindArray Term)
    → v < size val
    → Closed ar val
    → Known ar val t
    → Closed ar (put v t val)
Closed-put ar v t val h c k i u e = elim (ℕ_discrete v i) [
  | yes p ↦
      let same : t ≡ u = some_eq (sym (get-put_self v t val h) ∙ ap (get (put v t val)) p ∙ e) in
      Known-put ar v t u val (subst (Known ar val) same k)
  | no p ↦ Known-put ar v t u val (c i u (sym (get-put_ne v i t val p) ∙ e))
]

-- Binding a free variable adds exactly one equation.
pub Solves-put :
    (s : ℕ → Term) (v : ℕ) (t : Term) (val : RewindArray Term)
    → v < size val
    → get val v ≡ none
    → Solves s (put v t val) ↔ (Solves s val × (s v ≡ apply s t))
Solves-put s v t val h free = (
  (λ sol. (
    (λ i u e.
        sol i u
          (get-put_ne v i t val (λ p. let q : get val v ≡ some u = ap (get val) p ∙ e in cc) ∙ e)),
    sol v t (get-put_self v t val h),
  )),
  λ (sol, eq) i u e. elim (ℕ_discrete v i) [
    | yes p ↦
        let same : t ≡ u = some_eq (sym (get-put_self v t val h) ∙ ap (get (put v t val)) p ∙ e) in
        ap s (sym p) ∙ eq ∙ ap (apply s) same
    | no p ↦ sol i u (sym (get-put_ne v i t val p) ∙ e)
  ],
)
