-- ===== src/Axioms/Append/Laws.antt =====
-- The equality axioms that `append_eq_axioms` of lazyparam_prover/eq_axioms.h adds to a problem
-- force `EQ` to be a congruence for all names of the problem, and are true of equality.
use native.Mathlib.Decide.{ℕ_discrete}
use tptp_benchmark_go.Prelude.{
  ℕ, ◌≡◌, ◌≢◌, ◌↔◌, ◌⊎◌, refl, sym, Bool, true, false, not, some, ◌==◌, ==_iff, ◌&&◌, Bool-cases,
  inl, inr, arith, List, [], ◌∷◌, ◌++◌, map, All, All-mono, All-append, All-append_cases, All-map,
  subst, length, some_eq,
}
use tptp_benchmark_go.Syntax.Term.{Term, Terms, var, fun, nil, cons}
use tptp_benchmark_go.Syntax.Atom.{Atom, eq_pred}
use tptp_benchmark_go.Syntax.Clause.{atoms}
use tptp_benchmark_go.Derived.{DerAndClause, OrForm, derived, sources}
use tptp_benchmark_go.Axioms.{Kind, congruence_pred, congruence_fun, eq_axiom}
use tptp_benchmark_go.Axioms.Laws
use tptp_benchmark_go.Axioms.Laws.{Signed, eq_axiom-Holds}
use tptp_benchmark_go.Axioms.Model.{values, Holds, Refuted}
use tptp_benchmark_go.Axioms.Arity.{Entry, ArityCtx, find_entry}
use tptp_benchmark_go.Axioms.Arity.Laws.{
  AtomArity, EachAtom, FunFound, PredFound, FoundArgs, Found, AtomFound,
}
use tptp_benchmark_go.Axioms.Append.{
  pred_kinds, fun_kinds, congruences, equivalence_axioms, append_eq_axioms,
}
use tptp_benchmark_go.Axioms.Congruence.{
  Eq, EqLists, Excludes, Equivalence, FunRespects, PredRespects, excluded-Equivalence,
  excluded-FunRespects, excluded-PredRespects,
}
use tptp_benchmark_go.Axioms.Append.Result.{Unshifted, AllSame, appended}

module _ (ar pr : ℕ → ℕ) (two : pr eq_pred ≡ 2) where
  module _ {D : Type 0} (op : ℕ → List D → D) (rel : ℕ → List D → Bool) where
    -- All functors of the term respect `EQ`.
    abbrev mutual
      pub Respects : Term → Type 0
      Respects (var i) = Unit
      Respects (fun f ts) = FunRespects op rel (ar f) f × RespectsArgs ts

      pub RespectsArgs : Terms → Type 0
      RespectsArgs nil = Unit
      RespectsArgs (cons t ts) = RespectsArgs ts × Respects t

    -- The predicate and all functors of the atom respect `EQ`.
    abbrev pub AtomRespects : Atom → Type 0
    AtomRespects a =
        (a.pred ≢ eq_pred → PredRespects op rel (pr a.pred) a.pred) × RespectsArgs a.args

    abbrev ExcludesKind : Kind → Type 0
    ExcludesKind k = Excludes op rel (eq_axiom k)

    fun_excluded :
        (f n : ℕ) (m : List Entry)
        → All ExcludesKind (fun_kinds m)
        → find_entry f m ≡ some n
        → n ≢ 0
        → ExcludesKind (congruence_fun f n)
    unfolding fun_kinds find_entry
    fun_excluded f n [] ex e nz = absurd (cc e)
    fun_excluded f n (x ∷ m) ex e nz = elim (Bool-cases (f == x.key)) [
      | inr p ↦ fun_excluded f n m (rest (Bool-cases (x.count == 0))) (rw p at e) nz
      | inl p ↦
          let is_n : some x.count ≡ some n = rw p at e in
          let count : x.count ≡ n = some_eq is_n in
          let key : f ≡ x.key = (==_iff f x.key).0 p in
          let keep : (x.count == 0) ≡ false = ground (arith, count, nz) in
          let ex' : All ExcludesKind (congruence_fun x.key x.count ∷ fun_kinds m) = rw keep at ex in
          subst (λ n. ExcludesKind (congruence_fun f n)) count
            (subst (λ k. ExcludesKind (congruence_fun k x.count)) (sym key) ex'.0)
    ]
      where
        rest : ((x.count == 0) ≡ true) ⊎ ((x.count == 0) ≡ false) → All ExcludesKind (fun_kinds m)
        rest (inl z) = rw z at ex
        rest (inr z) =
            let ex' : All ExcludesKind (congruence_fun x.key x.count ∷ fun_kinds m) = rw z at ex in
            ex'.1

    pred_excluded :
        (p n : ℕ) (m : List Entry)
        → All ExcludesKind (pred_kinds m)
        → find_entry p m ≡ some n
        → n ≢ 0
        → p ≢ eq_pred
        → ExcludesKind (congruence_pred p n)
    unfolding pred_kinds find_entry
    pred_excluded p n [] ex e nz other = absurd (cc e)
    pred_excluded p n (x ∷ m) ex e nz other = elim (Bool-cases (p == x.key)) [
      | inr h ↦
          pred_excluded p n m (rest (Bool-cases (not (x.key == eq_pred) && not (x.count == 0))))
            (rw h at e) nz other
      | inl h ↦
          let is_n : some x.count ≡ some n = rw h at e in
          let count : x.count ≡ n = some_eq is_n in
          let key : p ≡ x.key = (==_iff p x.key).0 h in
          let keep : (not (x.key == eq_pred) && not (x.count == 0)) ≡ true =
            kept _ _ (ground (arith, key, other)) (ground (arith, count, nz)) in
          let ex' : All ExcludesKind (congruence_pred x.key x.count ∷ pred_kinds m) =
            rw keep at ex in
          subst (λ n. ExcludesKind (congruence_pred p n)) count
            (subst (λ k. ExcludesKind (congruence_pred k x.count)) (sym key) ex'.0)
    ]
      where
        kept : (a b : Bool) → a ≡ false → b ≡ false → (not a && not b) ≡ true
        kept a b g h = rw (g, h) refl

        rest :
            let k = not (x.key == eq_pred) && not (x.count == 0) in
            (k ≡ true) ⊎ (k ≡ false) → All ExcludesKind (pred_kinds m)
        rest (inl z) =
            let ex' : All ExcludesKind (congruence_pred x.key x.count ∷ pred_kinds m) =
              rw z at ex in
            ex'.1
        rest (inr z) = rw z at ex

    no_args : (n : ℕ) (xs ys : List D) → n ≡ 0 → length xs ≡ n → EqLists op rel xs ys → xs ≡ ys
    no_args n [] [] z h e = refl
    no_args n [] (y ∷ ys) z h e = absurd e
    no_args n (x ∷ xs) ys z h e = absurd (omega arith)

    module _ (ctx : ArityCtx) (same : Equivalence op rel)
        (ex : All ExcludesKind (congruences ctx)) where
      fun_respects : (f : ℕ) → FunFound ar pr ctx f → FunRespects op rel (ar f) f
      fun_respects f found = elim (ℕ_discrete (ar f) 0) [
        | no nz ↦
            let (_, ex') =
              All-append_cases ExcludesKind (pred_kinds ctx.pred_arity) (fun_kinds ctx.fun_arity)
                ex in
            excluded-FunRespects op rel (ar f) f (fun_excluded f (ar f) ctx.fun_arity ex' found nz)
        | yes z ↦ λ xs ys h e.
            subst (λ zs. Eq op rel (op f xs) (op f zs)) (no_args (ar f) xs ys z h e)
              (same.reflexive (op f xs))
      ]

      pred_respects : (p : ℕ) → PredFound ar pr ctx p → p ≢ eq_pred → PredRespects op rel (pr p) p
      pred_respects p found other = elim (ℕ_discrete (pr p) 0) [
        | no nz ↦
            let (ex', _) =
              All-append_cases ExcludesKind (pred_kinds ctx.pred_arity) (fun_kinds ctx.fun_arity)
                ex in
            excluded-PredRespects op rel (pr p) p
              (pred_excluded p (pr p) ctx.pred_arity ex' found nz other)
        | yes z ↦ λ xs ys h e yes'. subst (λ zs. rel p zs ≡ true) (no_args (pr p) xs ys z h e) yes'
      ]

      mutual
        respects : (t : Term) → Found ar pr t ctx → Respects t
        respects (var i) h = tt
        respects (fun f ts) h = (fun_respects f h.0, respects_args ts h.1)

        respects_args : (ts : Terms) → FoundArgs ar pr ts ctx → RespectsArgs ts
        respects_args nil h = tt
        respects_args (cons t ts) h = (respects_args ts h.0, respects t h.1)

      atom_respects : (a : Atom) → AtomFound ar pr ctx a → AtomRespects a
      atom_respects a h = (pred_respects a.pred h.0, respects_args a.args h.1)

      each_respects :
          (c : DerAndClause)
          → EachAtom ar pr (AtomFound ar pr ctx) c
          → EachAtom ar pr AtomRespects c
      each_respects c (h, hs) = (
        All-mono (AtomFound ar pr ctx) AtomRespects atom_respects (atoms (derived c)) h,
        All-mono (λ s. All (AtomFound ar pr ctx) (atoms s)) (λ s. All AtomRespects (atoms s))
            (λ s. All-mono (AtomFound ar pr ctx) AtomRespects atom_respects (atoms s)) (sources c)
            hs,
      )

    Excludes-same :
        (f g : OrForm) → AllSame ar pr two f g → All (Excludes op rel) f ↔ All (Excludes op rel) g
    Excludes-same [] [] same = ((λ h. h), λ h. h)
    Excludes-same [] (d ∷ ds) same = absurd same
    Excludes-same (c ∷ cs) [] same = absurd same
    Excludes-same (c ∷ cs) (d ∷ ds) same =
        let (to, back) = Excludes-same cs ds same.1 in
        (
          (λ h. (subst (λ x. (v : ℕ → D) → Refuted op rel v x) (sym same.0.0) h.0, to h.1)),
          λ h. (subst (λ x. (v : ℕ → D) → Refuted op rel v x) same.0.0 h.0, back h.1),
        )

    -- For a problem of unshifted clauses, whose names have the numbers of arguments that `ar` and
    -- `pr` say, `append_eq_axioms` returns. A structure that satisfies no clause of the result
    -- satisfies none of the problem, and in it `EQ` is an equivalence that all functors and
    -- predicates of the problem respect.
    pub append_eq_axioms-Equivalence :
        (f : OrForm)
        → All Unshifted f
        → All (EachAtom ar pr (AtomArity ar pr)) f
        → (f' : OrForm) × (append_eq_axioms f ≡ some f')
          × (All (Excludes op rel) f'
              → All (Excludes op rel) f × Equivalence op rel × All (EachAtom ar pr AtomRespects) f)
    append_eq_axioms-Equivalence f u h =
        let (g, ctx, ran, same, found) = appended ar pr two f u h in
        (
          g ++ map eq_axiom (equivalence_axioms ++ congruences ctx),
          ran,
          λ ex.
              let (old, new) = All-append_cases (Excludes op rel) g _ ex in
              let (r, (s, (t, kinds))) =
                (All-map (Excludes op rel) eq_axiom (equivalence_axioms ++ congruences ctx)).0
                  new in
              let equiv = excluded-Equivalence op rel r s t in
              (
                (Excludes-same f g same).1 old,
                equiv,
                All-mono (EachAtom ar pr (AtomFound ar pr ctx)) (EachAtom ar pr AtomRespects)
                    (each_respects ctx equiv kinds) f found,
              ),
        )

    module _ (eq_means : (x y : D) → Eq op rel x y ↔ (x ≡ y)) where
      Holds-Signed :
          (v : ℕ → D) (s : Bool) (p : ℕ) (xs : List D)
          → rel p xs ≡ s
          → Signed op (λ p xs. rel p xs ≡ true) eq_means v s (rel p xs ≡ true)
      Holds-Signed v true p xs h = h
      Holds-Signed v false p xs h = λ e. cc

      kind-Excludes : (k : Kind) → ExcludesKind k
      kind-Excludes k v h =
          eq_axiom-Holds op (λ p xs. rel p xs ≡ true) eq_means v k
            (All-mono (Holds op rel v) (Laws.Holds op (λ p xs. rel p xs ≡ true) eq_means v)
              (λ a. Holds-Signed v a.sign a.pred (values op v a.args)) (derived (eq_axiom k)).stored
              h)

      All-kinds : (l : List Kind) → All (Excludes op rel) (map eq_axiom l)
      All-kinds [] = tt
      All-kinds (k ∷ l) = (kind-Excludes k, All-kinds l)

      -- For a problem of unshifted clauses, whose names have the numbers of arguments that `ar`
      -- and `pr` say, `append_eq_axioms` returns. A structure in which `EQ` is equality satisfies
      -- no clause of the result if it satisfies none of the problem.
      pub append_eq_axioms-Excludes :
          (f : OrForm)
          → All Unshifted f
          → All (EachAtom ar pr (AtomArity ar pr)) f
          → All (Excludes op rel) f
          → (f' : OrForm) × (append_eq_axioms f ≡ some f') × All (Excludes op rel) f'
      append_eq_axioms-Excludes f u h ex =
          let (g, ctx, ran, same, found) = appended ar pr two f u h in
          (
            g ++ map eq_axiom (equivalence_axioms ++ congruences ctx),
            ran,
            All-append (Excludes op rel) g _ ((Excludes-same f g same).0 ex)
                (All-kinds (equivalence_axioms ++ congruences ctx)),
          )
