-- ===== src/Unify/Outcome.antt =====
-- What a step of unification (lazyparam_prover/mgu.h) promises, for a binding of one variable.

use tptp_benchmark_go.Prelude.{
  ℕ, zero, suc, ◌<◌, ◌≡◌, ◌↔◌, inl, inr, refl, sym, ap, ◌∙◌, Bool, true, false, Option, none, some,
  >>=-eq-some, ◌==◌, if◌then◌else◌, Bool-cases, Option-cases, ==_iff, arith, subst, some_eq, List,
  [], ◌∷◌, get_elem?, length,
}
use tptp_benchmark_go.Memory.Rewind.{get, size, put}
use tptp_benchmark_go.Memory.Rewind.Laws.{Edit, write, run, Legal}
use tptp_benchmark_go.Syntax.Term.{Term, var, fun}
use tptp_benchmark_go.Unify.{Valuation, has_var, shallow_eval, assign_root}
use tptp_benchmark_go.Unify.Subst.{apply, Solves, Known, Closed, size-put, Closed-put, Solves-put}
use tptp_benchmark_go.Unify.Occurs.{occurs-ne}

-- A term that no binding applies to.
abbrev pub Root : Valuation → Term → Type 0
Root val (var i) = get val i ≡ none
Root val (fun f ts) = Unit

get_elem?_of_free :
    (xs : List (Option Term)) (v : ℕ)
    → v < length xs
    → (elim (get_elem? xs v) [ none ↦ none | some m ↦ m ]) ≡ none
    → get_elem? xs v ≡ some none
get_elem?_of_free [] v h e = absurd (omega arith)
get_elem?_of_free (x ∷ xs) zero h e = ap some e
get_elem?_of_free (x ∷ xs) (suc v) h e = get_elem?_of_free xs v (omega arith) e

free_cell :
    (val : Valuation) (v : ℕ) → v < size val → get val v ≡ none → get_elem? val.cells v ≡ some none
unfolding get size
free_cell val v h e = get_elem?_of_free val.cells v h e

module _ (ar : ℕ → ℕ) where
  pub record Shallow (val : Valuation) (t u : Term) : Type 0 where
    pub root : Root val u
    pub known : Known ar val u
    pub same : (s : ℕ → Term) → Solves s val → apply s t ≡ apply s u

  pub shallow_eval-Shallow :
      (n : ℕ) (val : Valuation) (t u : Term)
      → Closed ar val
      → Known ar val t
      → shallow_eval n val t ≡ some u
      → Shallow val t u
  unfolding shallow_eval
  shallow_eval-Shallow zero val t u c k h = cc
  shallow_eval-Shallow (suc n) val (fun f ts) u c k h =
      subst (Shallow val (fun f ts)) (some_eq h)
        (record { root = tt; known = k; same = λ s sol. refl })
  shallow_eval-Shallow (suc n) val (var i) u c k h = elim (Option-cases (get val i)) [
    | inl e ↦
        subst (Shallow val (var i)) (some_eq (rw (e, shallow_eval) at h))
          (record { root = e; known = k; same = λ s sol. refl })
    | inr (t, e) ↦
        let r : Shallow val t u =
          shallow_eval-Shallow n val t u c (c i t e) (rw (e, shallow_eval) at h) in
        record { root = r.root; known = r.known; same = λ s sol. sol i t e ∙ r.same s sol }
  ]

  -- What a run of unification of `val` for the equation `P` promises, with its result `b`.
  pub record Outcome (val : Valuation) (P : (ℕ → Term) → Type 0) (b : Bool) (val' : Valuation)
      : Type 0 where
    pub edits : List (Edit Term)
    pub legal : Legal edits val
    pub ran : run edits val ≡ val'
    pub same_size : size val' ≡ size val
    pub closed : Closed ar val'
    pub solved : b ≡ true → (s : ℕ → Term) → Solves s val' ↔ (Solves s val × P s)
    pub failed : b ≡ false → (s : ℕ → Term) → Solves s val → ¬ P s

  -- Nothing was written.
  pub unchanged :
      (val : Valuation) (P : (ℕ → Term) → Type 0) (b : Bool)
      → Closed ar val
      → (b ≡ true → (s : ℕ → Term) → Solves s val → P s)
      → (b ≡ false → (s : ℕ → Term) → Solves s val → ¬ P s)
      → Outcome val P b val
  unfolding run Legal
  unchanged val P b c yes' no' = record {
    edits = [];
    legal = tt;
    ran = refl;
    same_size = refl;
    closed = c;
    solved = λ e s. ((λ sol. (sol, yes' e s sol)), λ r. r.0);
    failed = no';
  }

  -- One variable was bound.
  bound_one :
      (val : Valuation) (P : (ℕ → Term) → Type 0) (v : ℕ) (t : Term)
      → Closed ar val
      → v < size val
      → get val v ≡ none
      → Known ar val t
      → ((s : ℕ → Term) → Solves s val → (s v ≡ apply s t) ↔ P s)
      → Outcome val P true (put v t val)
  unfolding run Legal
  bound_one val P v t c h free k same = record {
    edits = write v t ∷ [];
    legal = (free_cell val v h free, tt);
    ran = refl;
    same_size = size-put v t val;
    closed = Closed-put ar v t val h c k;
    solved = λ e s. (
      (λ sol. let (old, eq) = (Solves-put s v t val h free).0 sol in (old, (same s old).0 eq)),
      λ (old, p). (Solves-put s v t val h free).1 (old, (same s old).1 p),
    );
    failed = λ e. cc;
  }

  pub assign_root-Outcome :
      (n : ℕ) (val : Valuation) (v : ℕ) (u : Term) (b : Bool) (val' : Valuation)
      → Closed ar val
      → v < size val
      → get val v ≡ none
      → Known ar val u
      → Root val u
      → assign_root n val v u ≡ some (b, val')
      → Outcome val (λ s. s v ≡ apply s u) b val'
  unfolding assign_root
  assign_root-Outcome n val v (var j) b val' c h free k r e = elim (Bool-cases (j == v)) [
    | inl same ↦
        let q : some (true, val) ≡ some (b, val') = rw same at e in
        let eq : j ≡ v = (==_iff j v).0 same in
        subst (λ (r : Bool × Valuation). Outcome val (λ s. s v ≡ s j) r.0 r.1) (some_eq q)
          (unchanged val _ true c (λ t s sol. ap s (sym eq)) (λ t. cc))
    | inr other ↦
        let q : some (true, put v (var j) val) ≡ some (b, val') = rw other at e in
        subst (λ (r : Bool × Valuation). Outcome val (λ s. s v ≡ s j) r.0 r.1) (some_eq q)
          (bound_one val _ v (var j) c h free k (λ s sol. ((λ x. x), λ x. x)))
  ]
  assign_root-Outcome n val v (fun f ts) b val' c h free k r e =
      let P = λ (s : ℕ → Term). s v ≡ apply s (fun f ts) in
      let (o, found, q) =
        >>=-eq-some (has_var n val (fun f ts) v)
          (λ o. if o then some (false, val) else some (true, put v (fun f ts) val)) e in
      elim (Bool-cases o) [
        | inl yes' ↦
            let q' : some (false, val) ≡ some (b, val') = rw yes' at q in
            subst (λ (r : Bool × Valuation). Outcome val P r.0 r.1) (some_eq q')
              (unchanged val P false c (λ t. cc)
                (λ t s sol. occurs-ne n val f ts v s sol (found ∙ ap some yes')))
        | inr no' ↦
            let q' : some (true, put v (fun f ts) val) ≡ some (b, val') = rw no' at q in
            subst (λ (r : Bool × Valuation). Outcome val P r.0 r.1) (some_eq q')
              (bound_one val P v (fun f ts) c h free k (λ s sol. ((λ x. x), λ x. x)))
      ]
