-- ===== src/Axioms/Arity/Laws.antt =====
-- The traversal of a problem (`ArityCtx` of lazyparam_prover/eq_axioms.h) finds all names with
-- their numbers of arguments.

use tptp_benchmark_go.Prelude.{
  ℕ, ◌≡◌, refl, sym, ap, ◌∙◌, true, false, Option, some, ◌>>=◌, ◌==◌, ==_iff, ==_refl, ltb,
  Bool-cases, Option-cases, inl, inr, List, [], ◌∷◌, All, All-mono, some_eq,
}
use tptp_benchmark_go.Syntax.Term.{
  Term, Terms, var, fun, nil, cons, arg_count, HasArity, HasArityArgs,
}
use tptp_benchmark_go.Syntax.Atom.{Atom}
use tptp_benchmark_go.Syntax.Clause.{AndClause, atoms}
use tptp_benchmark_go.Derived.{DerAndClause, derived, sources}
use tptp_benchmark_go.Axioms.Arity.{
  Entry, ArityCtx, set_entry, find_entry, note_arity, note_fun, traverse, traverse_args, count_pred,
  note_pred, traverse_atom, traverse_atoms, traverse_clauses, traverse_derived, traverse_form,
}

find-set_self : (k n : ℕ) (m : List Entry) → find_entry k (set_entry k n m) ≡ some n
unfolding find_entry set_entry
find-set_self k n [] = rw (==_refl k) refl
find-set_self k n (x ∷ m) = elim (Bool-cases (ltb k x.key)) [
  | inl p ↦ rw (p, ==_refl k) refl
  | inr p ↦ elim (Bool-cases (k == x.key)) [
    | inl q ↦ rw (p, q, ==_refl k) refl
    | inr q ↦ rw (p, q, q) (find-set_self k n m)
  ]
]

find-set_ne :
    (k n j : ℕ) (m : List Entry)
    → (j == k) ≡ false
    → find_entry j (set_entry k n m) ≡ find_entry j m
unfolding find_entry set_entry
find-set_ne k n j [] h = rw h refl
find-set_ne k n j (x ∷ m) h = elim (Bool-cases (ltb k x.key)) [
  | inl p ↦ rw (p, h) refl
  | inr p ↦ elim (Bool-cases (k == x.key)) [
    | inl q ↦
        let same : k ≡ x.key = (==_iff k x.key).0 q in
        let away : (j == x.key) ≡ false = ap (λ i. j == i) (sym same) ∙ h in rw (p, q, h, away) refl
    | inr q ↦ rw (p, q, find-set_ne k n j m h) refl
  ]
]

-- The names found before keep their numbers.
abbrev pub Kept : List Entry → List Entry → Type 0
Kept m m' = (k n : ℕ) → find_entry k m ≡ some n → find_entry k m' ≡ some n

-- All numbers are the ones of `ar`.
abbrev pub Agrees : (ℕ → ℕ) → List Entry → Type 0
Agrees ar m = (k n : ℕ) → find_entry k m ≡ some n → ar k ≡ n

set-Agrees :
    (ar : ℕ → ℕ) (k n : ℕ) (m : List Entry)
    → ar k ≡ n
    → Agrees ar m
    → Agrees ar (set_entry k n m) × Kept m (set_entry k n m)
set-Agrees ar k n m h a = (
  (λ j i e. elim (Bool-cases (j == k)) [
    | inl p ↦
        let same : j ≡ k = (==_iff j k).0 p in
        let is_n : n ≡ i =
          some_eq
            (sym (find-set_self k n m) ∙ ap (λ x. find_entry x (set_entry k n m)) (sym same) ∙ e) in
        ap ar same ∙ h ∙ is_n
    | inr p ↦ a j i (sym (find-set_ne k n j m p) ∙ e)
  ]),
  λ j i e. elim (Bool-cases (j == k)) [
    | inl p ↦
        let same : j ≡ k = (==_iff j k).0 p in
        ap (λ x. find_entry x (set_entry k n m)) same
        ∙ find-set_self k n m
        ∙ ap some (sym h ∙ ap ar (sym same) ∙ a j i e)
    | inr p ↦ find-set_ne k n j m p ∙ e
  ],
)

noted :
    (ar : ℕ → ℕ) (k n : ℕ) (m : List Entry)
    → ar k ≡ n
    → Agrees ar m
    → note_arity k n m ≡ some (set_entry k n m)
unfolding note_arity
noted ar k n m h a = elim (Option-cases (find_entry k m)) [
  | inl e ↦ rw (note_arity, e) refl
  | inr (j, e) ↦
      let same : (j == n) ≡ true = (==_iff j n).1 (sym (a k j e) ∙ h) in
      rw (note_arity, e, same) refl
]

module _ (ar pr : ℕ → ℕ) where
  -- The numbers found so far are those of `ar` for functors and of `pr` for predicates.
  pub record Right (ctx : ArityCtx) : Type 0 where
    pub funs : Agrees ar ctx.fun_arity
    pub preds : Agrees pr ctx.pred_arity

  pub record Grown (ctx ctx' : ArityCtx) : Type 0 where
    pub funs : Kept ctx.fun_arity ctx'.fun_arity
    pub preds : Kept ctx.pred_arity ctx'.pred_arity

  -- A traversal returns, and then `P` is found.
  abbrev pub Finds : (ArityCtx → Option ArityCtx) → (ArityCtx → Type 0) → Type 0
  Finds f P =
      (ctx : ArityCtx)
      → Right ctx
      → (ctx' : ArityCtx) × (f ctx ≡ some ctx') × Right ctx' × Grown ctx ctx' × P ctx'

  abbrev Lasting : (ArityCtx → Type 0) → Type 0
  Lasting P = (ctx ctx' : ArityCtx) → Grown ctx ctx' → P ctx → P ctx'

  Finds_then :
      (f g : ArityCtx → Option ArityCtx) (P Q : ArityCtx → Type 0)
      → Lasting P
      → Finds f P
      → Finds g Q
      → Finds (λ ctx. f ctx >>= g) (λ ctx. P ctx × Q ctx)
  Finds_then f g P Q lasts first second ctx right =
      let (mid, ran, right', grown, p) = first ctx right in
      let (end, ran', right'', grown', q) = second mid right' in
      (
        end,
        rw ran ran',
        right'',
        record {
          funs = λ k n e. grown'.funs k n (grown.funs k n e);
          preds = λ k n e. grown'.preds k n (grown.preds k n e);
        },
        (lasts mid end grown' p, q),
      )

  Finds_none : (P : ArityCtx → Type 0) → ((ctx : ArityCtx) → P ctx) → Finds some P
  Finds_none P p ctx right =
      (ctx, refl, right, record { funs = λ k n e. e; preds = λ k n e. e }, p ctx)

  -- The functor is found with its number of arguments, and the predicate is.
  abbrev pub FunFound : ArityCtx → ℕ → Type 0
  FunFound ctx f = find_entry f ctx.fun_arity ≡ some (ar f)

  abbrev pub PredFound : ArityCtx → ℕ → Type 0
  PredFound ctx p = find_entry p ctx.pred_arity ≡ some (pr p)

  note_fun-Finds : (f n : ℕ) → ar f ≡ n → Finds (note_fun f n) (λ ctx. FunFound ctx f)
  unfolding note_fun
  note_fun-Finds f n h ctx right =
      let (agrees, kept) = set-Agrees ar f n ctx.fun_arity h right.funs in
      (
        record ctx { fun_arity = set_entry f n ctx.fun_arity },
        rw (noted ar f n ctx.fun_arity h right.funs) refl,
        record { funs = agrees; preds = right.preds },
        record { funs = kept; preds = λ k n e. e },
        find-set_self f n ctx.fun_arity ∙ ap some (sym h),
      )

  count_pred-Right : (p : ℕ) (ctx : ArityCtx) → Right ctx → Right (count_pred p ctx)
  unfolding count_pred
  count_pred-Right p ctx right = record { funs = right.funs; preds = right.preds }

  note_pred-Finds :
      (p n : ℕ)
      → pr p ≡ n
      → Finds (λ ctx. note_pred p n (count_pred p ctx)) (λ ctx. PredFound ctx p)
  unfolding note_pred count_pred
  note_pred-Finds p n h ctx right =
      let (agrees, kept) = set-Agrees pr p n ctx.pred_arity h right.preds in
      (
        record (count_pred p ctx) { pred_arity = set_entry p n ctx.pred_arity },
        rw (noted pr p n ctx.pred_arity h right.preds) refl,
        record { funs = right.funs; preds = agrees },
        record { funs = λ k n e. e; preds = kept },
        find-set_self p n ctx.pred_arity ∙ ap some (sym h),
      )

  -- All functors of a term are found.
  abbrev mutual
    pub Found : Term → ArityCtx → Type 0
    Found (var i) ctx = Unit
    Found (fun f ts) ctx = FunFound ctx f × FoundArgs ts ctx

    pub FoundArgs : Terms → ArityCtx → Type 0
    FoundArgs nil ctx = Unit
    FoundArgs (cons t ts) ctx = FoundArgs ts ctx × Found t ctx

  mutual
    Found-lasts : (t : Term) → Lasting (Found t)
    Found-lasts (var i) ctx ctx' g h = tt
    Found-lasts (fun f ts) ctx ctx' g h = (g.funs f (ar f) h.0, FoundArgs-lasts ts ctx ctx' g h.1)

    FoundArgs-lasts : (ts : Terms) → Lasting (FoundArgs ts)
    FoundArgs-lasts nil ctx ctx' g h = tt
    FoundArgs-lasts (cons t ts) ctx ctx' g h =
        (FoundArgs-lasts ts ctx ctx' g h.0, Found-lasts t ctx ctx' g h.1)

  mutual
    unfolding traverse traverse_args

    traverse-Finds : (t : Term) → HasArity ar t → Finds (traverse t) (Found t)
    traverse-Finds (var i) h = Finds_none (λ ctx. Unit) (λ ctx. tt)
    traverse-Finds (fun f ts) h =
        Finds_then (note_fun f (arg_count ts)) (traverse_args ts) (λ ctx. FunFound ctx f)
          (FoundArgs ts) (λ ctx ctx' g p. g.funs f (ar f) p)
          (note_fun-Finds f (arg_count ts) (sym h.0)) (traverse_args-Finds ts h.1)

    traverse_args-Finds :
        (ts : Terms) → HasArityArgs ar ts → Finds (traverse_args ts) (FoundArgs ts)
    traverse_args-Finds nil h = Finds_none (λ ctx. Unit) (λ ctx. tt)
    traverse_args-Finds (cons t ts) h =
        Finds_then (traverse_args ts) (traverse t) (FoundArgs ts) (Found t) (FoundArgs-lasts ts)
          (traverse_args-Finds ts h.1) (traverse-Finds t h.0)

  -- Each predicate and functor has as many arguments as `pr` and `ar` say.
  abbrev pub AtomArity : Atom → Type 0
  AtomArity a = (pr a.pred ≡ arg_count a.args) × HasArityArgs ar a.args

  abbrev pub AtomFound : ArityCtx → Atom → Type 0
  AtomFound ctx a = PredFound ctx a.pred × FoundArgs a.args ctx

  AtomFound-lasts : (a : Atom) → Lasting (λ ctx. AtomFound ctx a)
  AtomFound-lasts a ctx ctx' g h =
      (g.preds a.pred (pr a.pred) h.0, FoundArgs-lasts a.args ctx ctx' g h.1)

  traverse_atom-Finds : (a : Atom) → AtomArity a → Finds (traverse_atom a) (λ ctx. AtomFound ctx a)
  unfolding traverse_atom
  traverse_atom-Finds a h =
      Finds_then (λ ctx. note_pred a.pred (arg_count a.args) (count_pred a.pred ctx))
        (traverse_args a.args) (λ ctx. PredFound ctx a.pred) (FoundArgs a.args)
        (λ ctx ctx' g p. g.preds a.pred (pr a.pred) p) (note_pred-Finds a.pred _ h.0)
        (traverse_args-Finds a.args h.1)

  traverse_atoms-Finds :
      (l : List Atom) → All AtomArity l → Finds (traverse_atoms l) (λ ctx. All (AtomFound ctx) l)
  unfolding traverse_atoms
  traverse_atoms-Finds [] h ctx right = Finds_none (λ ctx. Unit) (λ ctx. tt) ctx right
  traverse_atoms-Finds (a ∷ l) h ctx right =
      let (ctx', ran, right', grown, (p, q)) =
        Finds_then (traverse_atoms l) (traverse_atom a) (λ ctx. All (AtomFound ctx) l)
          (λ ctx. AtomFound ctx a)
          (λ ctx ctx' g.
            All-mono (AtomFound ctx) (AtomFound ctx') (λ b. AtomFound-lasts b ctx ctx' g) l)
          (traverse_atoms-Finds l h.1) (traverse_atom-Finds a h.0) ctx right in
      (ctx', ran, right', grown, (q, p))

  -- the atoms of the derived clause and of the sources
  abbrev pub EachAtom : (Atom → Type 0) → DerAndClause → Type 0
  EachAtom P c = All P (atoms (derived c)) × All (λ s. All P (atoms s)) (sources c)

  AllFound-lasts : (l : List Atom) → Lasting (λ ctx. All (AtomFound ctx) l)
  AllFound-lasts l ctx ctx' g =
      All-mono (AtomFound ctx) (AtomFound ctx') (λ b. AtomFound-lasts b ctx ctx' g) l

  ClausesFound-lasts :
      (cs : List AndClause) → Lasting (λ ctx. All (λ s. All (AtomFound ctx) (atoms s)) cs)
  ClausesFound-lasts cs ctx ctx' g =
      All-mono (λ s. All (AtomFound ctx) (atoms s)) (λ s. All (AtomFound ctx') (atoms s))
        (λ s. AllFound-lasts (atoms s) ctx ctx' g) cs

  traverse_clauses-Finds :
      (cs : List AndClause)
      → All (λ s. All AtomArity (atoms s)) cs
      → Finds (traverse_clauses cs) (λ ctx. All (λ s. All (AtomFound ctx) (atoms s)) cs)
  unfolding traverse_clauses
  traverse_clauses-Finds [] h ctx right = Finds_none (λ ctx. Unit) (λ ctx. tt) ctx right
  traverse_clauses-Finds (c ∷ cs) h ctx right =
      let (ctx', ran, right', grown, (p, q)) =
        Finds_then (traverse_clauses cs) (traverse_atoms (atoms c))
          (λ ctx. All (λ s. All (AtomFound ctx) (atoms s)) cs)
          (λ ctx. All (AtomFound ctx) (atoms c)) (ClausesFound-lasts cs)
          (traverse_clauses-Finds cs h.1) (traverse_atoms-Finds (atoms c) h.0) ctx right in
      (ctx', ran, right', grown, (q, p))

  traverse_derived-Finds :
      (c : DerAndClause)
      → EachAtom AtomArity c
      → Finds (traverse_derived c) (λ ctx. EachAtom (AtomFound ctx) c)
  unfolding traverse_derived
  traverse_derived-Finds c h =
      Finds_then (traverse_atoms (atoms (derived c))) (traverse_clauses (sources c))
        (λ ctx. All (AtomFound ctx) (atoms (derived c)))
        (λ ctx. All (λ s. All (AtomFound ctx) (atoms s)) (sources c))
        (AllFound-lasts (atoms (derived c))) (traverse_atoms-Finds (atoms (derived c)) h.0)
        (traverse_clauses-Finds (sources c) h.1)

  -- For a problem whose functors and predicates have the numbers of arguments that `ar` and `pr`
  -- say, the traversal from a context with right numbers returns a context with right numbers, in
  -- which all functors and predicates of the problem are found.
  pub traverse_form-Finds :
      (f : List DerAndClause)
      → All (EachAtom AtomArity) f
      → Finds (traverse_form f) (λ ctx. All (EachAtom (AtomFound ctx)) f)
  unfolding traverse_form
  traverse_form-Finds [] h = Finds_none (λ ctx. Unit) (λ ctx. tt)
  traverse_form-Finds (c ∷ cs) h =
      Finds_then (traverse_derived c) (traverse_form cs) (λ ctx. EachAtom (AtomFound ctx) c)
        (λ ctx. All (EachAtom (AtomFound ctx)) cs)
        (λ ctx ctx' g p. (
          AllFound-lasts (atoms (derived c)) ctx ctx' g p.0,
          ClausesFound-lasts (sources c) ctx ctx' g p.1,
        ))
        (traverse_derived-Finds c h.0) (traverse_form-Finds cs h.1)
