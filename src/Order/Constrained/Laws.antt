-- ===== src/Order/Constrained/Laws.antt =====
-- The constraints that `ConstrainedValuation` (lazyparam_prover/constrained_valuation.h) keeps say
-- the same as all the constraints that were pushed.
use tptp_benchmark_go.Prelude.{
  ◌≡◌, ◌↔◌, refl, Bool, true, false, Option, some, ◌>>=◌, List, [], ◌∷◌, if◌then◌else◌,
}
use tptp_benchmark_go.Syntax.Term.{Term}
use tptp_benchmark_go.Order.Constraint.{Relation, Status, holds, fails, unknown, OrderAtom}
use tptp_benchmark_go.Order.Constraint.Laws.{Side, allows, lex, Satisfied, Means, Agrees}
use tptp_benchmark_go.Order.Constraint.Reduce.{reduce-Reduced}
use tptp_benchmark_go.Order.Constrained.{check_and_push, check_all}

module _ (actual : Term → Term → Side) (cmp : Term → Term → Option Relation) where
  -- Each constraint is satisfied.
  unfoldable pub AllSatisfied : List OrderAtom → Type 0
  AllSatisfied [] = Unit
  AllSatisfied (c ∷ cs) = Satisfied actual c × AllSatisfied cs

  -- The status of each constraint is right, and the comparisons of its pairs return and are right.
  unfoldable pub Checkable : List OrderAtom → Type 0
  unfolding Agrees
  Checkable [] = Unit
  Checkable (c ∷ cs) = (Agrees actual cmp c.pairs × Means actual c.status c) × Checkable cs

  -- What a check says of the constraints `P`, given the ones already kept.
  abbrev pub Verdict : Type 0 → List OrderAtom → Bool × List OrderAtom → Type 0
  Verdict P kept (true, cs) = AllSatisfied cs ↔ (P × AllSatisfied kept)
  Verdict P kept (false, cs) = ¬ P

  by_status :
      (c d : OrderAtom) (cs : List OrderAtom) (s : Status)
      → d.status ≡ s
      → Means actual s d
      → d.rel ≡ c.rel
      → d.pairs ≡ c.pairs
      → (r : Bool × List OrderAtom) × ((elim s [
        | holds ↦ some (true, cs)
        | unknown ↦ some (true, d ∷ cs)
        | fails ↦ some (false, cs)
      ])
          ≡ some r)
        × Verdict (Satisfied actual c) cs r
  unfolding AllSatisfied
  by_status c d cs holds q m same pairs =
      ((true, cs), refl, ((λ a. (rw (same, pairs) at m, a)), λ r. r.1))
  by_status c d cs fails q m same pairs =
      let n : allows c.rel (lex actual c.pairs) ≡ false = rw (same, pairs) at m in
      ((false, cs), refl, λ a. cc)
  by_status c d cs unknown q m same pairs = (
    (true, d ∷ cs),
    refl,
    ((λ a. (rw (same, pairs) at a.0, a.1)), λ a. (rw (same, pairs) a.0, a.1)),
  )

  check_and_push-Verdict :
      (cs : List OrderAtom) (c : OrderAtom)
      → Agrees actual cmp c.pairs
      → Means actual c.status c
      → (r : Bool × List OrderAtom) × (check_and_push cmp cs c ≡ some r)
        × Verdict (Satisfied actual c) cs r
  unfolding check_and_push
  check_and_push-Verdict cs c a m =
      let (d, h, (right, same, pairs)) = reduce-Reduced actual cmp c a m in
      rw h (by_status c d cs d.status refl right same pairs)

  -- The outcome for the rest of the list, after the first constraint was kept or dropped.
  Verdict-step :
      (c : OrderAtom) (cs c2 kept : List OrderAtom) (r : Bool × List OrderAtom)
      → Verdict (Satisfied actual c) c2 (true, kept)
      → Verdict (AllSatisfied cs) kept r
      → Verdict (AllSatisfied (c ∷ cs)) c2 r
  unfolding AllSatisfied
  Verdict-step c cs c2 kept (true, out) first rest = (
    (λ o. let (x, k) = rest.0 o in let (y, z) = first.0 k in ((y, x), z)),
    λ ((y, x), z). rest.1 (x, first.1 (y, z)),
  )
  Verdict-step c cs c2 kept (false, out) first rest = λ b. rest b.1

  -- If the status of each constraint is right and the comparisons return and agree with the actual
  -- order, the check of the list returns. Where it says `true`, the constraints kept are all
  -- satisfied just when the old ones and those kept before are; where it says `false`, an old one
  -- is not satisfied.
  pub check_all-Verdict :
      (cs c2 : List OrderAtom)
      → Checkable cs
      → (r : Bool × List OrderAtom) × (check_all cmp cs c2 ≡ some r)
        × Verdict (AllSatisfied cs) c2 r
  unfolding check_all Checkable AllSatisfied
  check_all-Verdict [] c2 h = ((true, c2), refl, ((λ a. (tt, a)), λ r. r.1))
  check_all-Verdict (c ∷ cs) c2 ((a, m), rest) =
      go (λ kept. check_all-Verdict cs kept rest) (check_and_push-Verdict c2 c a m)
    where
      go :
          ((kept : List OrderAtom)
            → (r : Bool × List OrderAtom) × (check_all cmp cs kept ≡ some r)
              × Verdict (AllSatisfied cs) kept r)
          → ((r : Bool × List OrderAtom) × (check_and_push cmp c2 c ≡ some r)
              × Verdict (Satisfied actual c) c2 r)
          → (r : Bool × List OrderAtom) × ((check_and_push cmp c2 c >>= λ s.
                if s.0 then check_all cmp cs s.1 else some (false, s.1))
              ≡ some r)
            × Verdict (AllSatisfied (c ∷ cs)) c2 r
      go later ((true, kept), h, same) =
          let (r, g, all) = later kept in (r, rw h g, Verdict-step c cs c2 kept r same all)
      go later ((false, kept), h, bad) = ((false, kept), rw h refl, λ b. bad b.0)
