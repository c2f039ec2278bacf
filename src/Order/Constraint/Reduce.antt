-- ===== src/Order/Constraint/Reduce.antt =====
-- `OrderAtom::reduce` (lazyparam_prover/constraint.h) returns, and keeps what the constraint means.

use tptp_benchmark_go.Prelude.{
  ℕ, zero, suc, ◌+◌, ◌<◌, ◌≡◌, refl, sym, ap, ◌∙◌, true, false, Option, some, ◌>>=◌, List, [], ◌∷◌,
  length, arith, Bool-cases, inl, inr, subst,
}
use tptp_benchmark_go.Syntax.Term.{Term}
use tptp_benchmark_go.Order.Constraint.{
  Relation, Status, holds, fails, unknown, TermPair, OrderAtom, decide, verdict, is_e, reduce_from,
  drop, reduce,
}
use tptp_benchmark_go.Order.Constraint.Laws.{
  Side, equal, allows, verdict_holds, verdict_fails, lex, lex_step, Means, Agrees, decide-allows,
}

drop-nil : (n : ℕ) → drop n [] ≡ []
unfolding drop
drop-nil zero = refl
drop-nil (suc n) = refl

drop-drop : (n k : ℕ) (ps : List TermPair) → drop k (drop n ps) ≡ drop (n + k) ps
unfolding drop
drop-drop zero k ps = ap (λ m. drop m ps) (omega arith)
drop-drop (suc n) k [] = drop-nil k ∙ sym (drop-nil (suc n + k))
drop-drop (suc n) k (p ∷ ps) =
    drop-drop n k ps
    ∙ ap (λ m. drop m (p ∷ ps)) (let h : suc (n + k) ≡ suc n + k = omega arith in h)

length-drop_pos : (n : ℕ) (ps : List TermPair) → n < length ps → 0 < length (drop n ps)
unfolding drop
length-drop_pos zero ps h = h
length-drop_pos (suc n) [] h = absurd (omega arith)
length-drop_pos (suc n) (p ∷ ps) h = length-drop_pos n ps (omega arith)

length-drop_add : (n k : ℕ) (ps : List TermPair) → k < length (drop n ps) → n + k < length ps
unfolding drop
length-drop_add zero k ps h = omega arith
length-drop_add (suc n) k [] h = absurd (omega arith)
length-drop_add (suc n) k (p ∷ ps) h = omega (arith, length-drop_add n k ps h)

module _ (actual : Term → Term → Side) where
  equal_of_e : (r : Relation) (s : Side) → is_e r ≡ true → allows r s ≡ true → s ≡ equal
  unfolding is_e
  equal_of_e r s h a = ground arith

  -- What the loop returns for the pairs `ps`.
  Found : Relation → List TermPair → ℕ → Status × ℕ → Type 0
  Found want ps done (holds, d) = allows want (lex actual ps) ≡ true
  Found want ps done (fails, d) = allows want (lex actual ps) ≡ false
  Found want ps done (unknown, d) =
      (k : ℕ) × (d ≡ done + k) × (k < length ps) × (lex actual ps ≡ lex actual (drop k ps))

  Found-here :
      (got want : Relation) (ps : List TermPair) (done : ℕ)
      → 0 < length ps
      → allows got (lex actual ps) ≡ true
      → Found want ps done (verdict got want, done)
  unfolding Found drop
  Found-here got want ps done h a = go (verdict got want) refl
    where
      go : (s : Status) → verdict got want ≡ s → Found want ps done (s, done)
      go holds q = verdict_holds got want (lex actual ps) q a
      go fails q = verdict_fails got want (lex actual ps) q a
      go unknown q = (0, omega arith, h, refl)

  Found-next :
      (want : Relation) (p : TermPair) (ps : List TermPair) (done : ℕ) (r : Status × ℕ)
      → actual p.a p.b ≡ equal
      → Found want ps (done + 1) r
      → Found want (p ∷ ps) done r
  unfolding Found drop lex lex_step
  Found-next want p ps done (holds, d) h f = rw h f
  Found-next want p ps done (fails, d) h f = rw h f
  Found-next want p ps done (unknown, d) h (k, a, b, c) = (suc k, omega arith, omega arith, rw h c)

  reduce_from-Found :
      (cmp : Term → Term → Option Relation) (want : Relation) (ps : List TermPair) (done : ℕ)
      → 0 < length ps
      → Agrees actual cmp ps
      → (r : Status × ℕ) × (reduce_from cmp want ps done ≡ some r) × Found want ps done r
  unfolding reduce_from Agrees
  reduce_from-Found cmp want [] done h a = absurd (omega arith)
  reduce_from-Found cmp want (p ∷ []) done h ((r, q, s), a) = (
    (verdict (decide r true) want, done),
    rw q,
    Found-here (decide r true) want (p ∷ []) done (omega arith)
        (decide-allows actual r p [] refl s),
  )
  reduce_from-Found cmp want (p ∷ p' ∷ ps) done h ((r, q, s), a) = elim (Bool-cases (is_e r)) [
    | inl c ↦
        let (t, f, x) = reduce_from-Found cmp want (p' ∷ ps) (done + 1) (omega arith) a in
        (t, rw (q, c) f, Found-next want p (p' ∷ ps) done t (equal_of_e r _ c s) x)
    | inr c ↦ (
      (verdict (decide r false) want, done),
      rw (q, c),
      Found-here (decide r false) want (p ∷ p' ∷ ps) done (omega arith)
          (decide-allows actual r p (p' ∷ ps) c s),
    )
  ]

  Agrees-drop :
      (cmp : Term → Term → Option Relation) (n : ℕ) (ps : List TermPair)
      → Agrees actual cmp ps
      → Agrees actual cmp (drop n ps)
  unfolding drop Agrees
  Agrees-drop cmp zero ps a = a
  Agrees-drop cmp (suc n) [] a = a
  Agrees-drop cmp (suc n) (p ∷ ps) a = Agrees-drop cmp n ps a.1

  Means-Found :
      (c : OrderAtom) (r : Status × ℕ)
      → lex actual c.pairs ≡ lex actual (drop c.done c.pairs)
      → Found c.rel (drop c.done c.pairs) c.done r
      → Means actual r.0 (record c { status = r.0; done = r.1 })
  unfolding Found
  Means-Found c (holds, d) same f = ap (allows c.rel) same ∙ f
  Means-Found c (fails, d) same f = ap (allows c.rel) same ∙ f
  Means-Found c (unknown, d) same (k, a, b, f) = (
    omega (arith, length-drop_add c.done k c.pairs b),
    same ∙ f ∙ ap (lex actual) (drop-drop c.done k c.pairs ∙ ap (λ m. drop m c.pairs) (sym a)),
  )

  -- `c'` is `c` with a status that is right.
  abbrev pub Reduced : OrderAtom → OrderAtom → Type 0
  Reduced c c' = Means actual c'.status c' × (c'.rel ≡ c.rel) × (c'.pairs ≡ c.pairs)

  pub reduce-Reduced :
      (cmp : Term → Term → Option Relation) (c : OrderAtom)
      → Agrees actual cmp c.pairs
      → Means actual c.status c
      → (c' : OrderAtom) × (reduce cmp c ≡ some c') × Reduced c c'
  unfolding reduce
  reduce-Reduced cmp c a m = go c.status refl m
    where
      go :
          (s : Status)
          → c.status ≡ s
          → Means actual s c
          → (c' : OrderAtom) × ((elim s [
            | holds ↦ some c
            | fails ↦ some c
            | unknown ↦ reduce_from cmp c.rel (drop c.done c.pairs) c.done >>= λ r.
                some (record c { status = r.0; done = r.1 })
          ])
              ≡ some c')
            × (Means actual c'.status c' × (c'.rel ≡ c.rel) × (c'.pairs ≡ c.pairs))
      go holds q m = (c, refl, (subst (λ s. Means actual s c) (sym q) m, refl, refl))
      go fails q m = (c, refl, (subst (λ s. Means actual s c) (sym q) m, refl, refl))
      go unknown q m =
          let (r, h, f) =
            reduce_from-Found cmp c.rel (drop c.done c.pairs) c.done
              (length-drop_pos c.done c.pairs m.0) (Agrees-drop cmp c.done c.pairs a) in
          (record c { status = r.0; done = r.1 }, rw h, (Means-Found c r m.1 f, refl, refl))
