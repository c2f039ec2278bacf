-- ===== src/Engine/Balanced/Budget.antt =====
-- The division of the size limit in lazyparam_prover/engine/balanced.h.
use native.Mathlib.Decide.{dec_le}
use tptp_benchmark_go.Prelude.{
  ℕ, suc, ◌+◌, ◌-◌, ◌^◌, ◌≤◌, ◌<◌, ◌≡◌, ◌↔◌, ◌⊎◌, inl, inr, arith, refl, ltb, lt→ltb, ◌==◌, not,
  ◌&&◌, true, false, Bool-cases, List, ◌∷◌, length,
}
use tptp_benchmark_go.Engine.Task.{Task}
use tptp_benchmark_go.Engine.Balanced.{
  word, budget, head_budget, head_max, rest_max, Cont, Div, step_set, first_attempt, second_attempt,
}

-- An attempt at subgoals of sizes `a` and, together, `b`, from `used` nodes on, in which the first
-- subgoal stays within its share.
pub record Within (max used n a b : ℕ) : Type 0 where
  pub share : used + a ≤ head_max max used n
  pub total : used + a + b ≤ max

-- The attempt in which it takes more than its share, after the others stayed below their limit.
pub record Over (max used n a b : ℕ) : Type 0 where
  pub over : head_budget max used n + 1 ≤ a
  pub others : used + b ≤ rest_max max used n
  pub total : used + b + a ≤ max

budget_exact : (max used : ℕ) → used ≤ max → max < word → budget max used ≡ max - used
unfolding budget
budget_exact max used h w = omega arith

share_small : (max used n : ℕ) → head_budget max used (suc n) ≤ budget max used
unfolding head_budget
share_small max used n = grind arith

head_max_exact :
    (max used n : ℕ)
    → used ≤ max
    → max < word
    → head_max max used (suc n) ≡ used + head_budget max used (suc n)
unfolding head_max
head_max_exact max used n h w = omega (arith, share_small max used n, budget_exact max used h w)

rest_max_exact :
    (max used n : ℕ)
    → max < word
    → head_budget max used n < max
    → rest_max max used n ≡ max - (head_budget max used n + 1)
unfolding rest_max
rest_max_exact max used n w h = omega arith

-- While the nodes used are within the limit, the attempts split the search without a gap and
-- without an overlap: subgoals of sizes `a` and, together, `b` fit below the limit exactly if they
-- fit in one of the two attempts, and they never fit in both.
pub attempts_split :
    (max used n a b : ℕ)
    → used ≤ max
    → max < word
    → ((used + a + b ≤ max) ↔ (Within max used (suc n) a b ⊎ Over max used (suc n) a b))
      × ¬ (Within max used (suc n) a b × Over max used (suc n) a b)
attempts_split max used n a b h w = ((split, join), apart)
  where
    hb : ℕ
    hb = head_budget max used (suc n)

    room : hb ≤ max - used
    room = omega (arith, share_small max used n, budget_exact max used h w)

    split : used + a + b ≤ max → Within max used (suc n) a b ⊎ Over max used (suc n) a b
    split t = elim (dec_le a hb) [
      | yes p ↦ inl (record { share = omega (arith, head_max_exact max used n h w); total = t })
      | no p ↦ inr (record {
        over = omega arith;
        others = omega (arith, rest_max_exact max used (suc n) w (omega arith));
        total = omega arith;
      })
    ]

    join : Within max used (suc n) a b ⊎ Over max used (suc n) a b → used + a + b ≤ max
    join (inl x) = x.total
    join (inr x) = omega (arith, x.total)

    apart : ¬ (Within max used (suc n) a b × Over max used (suc n) a b)
    apart (x, y) = omega (arith, x.share, y.over, head_max_exact max used n h w)

no_room :
    (max used n a b : ℕ)
    → used ≤ max
    → max < word
    → ltb (head_budget max used (suc n)) (budget max used) ≡ false
    → ¬ Over max used (suc n) a b
no_room max used n a b h w e o =
    let small : head_budget max used (suc n) < budget max used =
      omega (arith, o.over, o.total, budget_exact max used h w) in
    absurd (cc (e, lt→ltb (head_budget max used (suc n)) (budget max used) small))

some_room :
    (max used n : ℕ)
    → used ≤ max
    → max < word
    → ltb (head_budget max used (suc n)) (budget max used) ≡ true
    → Over max used (suc n) (head_budget max used (suc n) + 1) 0
some_room max used n h w e =
    let small : head_budget max used (suc n) < budget max used = ground arith in
    let exact = budget_exact max used h w in
    record {
      over = omega arith;
      others =
          omega
            (arith, exact, small, rest_max_exact max used (suc n) w (omega (arith, exact, small)));
      total = omega (arith, exact, small);
    }

module _ {S R : Type 0} (take : S → R) (give : R → S → S) (used : S → ℕ) where
  -- For a set of several subgoals, while the nodes used are within the limit, the second attempt is
  -- saved on top of the first exactly if it could succeed for some sizes of the proofs of the
  -- first subgoal and of the others; if it could for none, only the first attempt is saved.
  pub step_set-attempts :
      (f g : Task S) (fs : List (Task S)) (max : ℕ) (c : Cont S) (st : S) (d : Div S R)
      → used st ≤ max
      → max < word
      → let one = first_attempt take give used f (g ∷ fs) max c st d in
        let two = second_attempt take give used f (g ∷ fs) max c st one in
        let n = length (f ∷ g ∷ fs) in
        ((step_set take give used (f ∷ g ∷ fs) max c st d ≡ two)
          × ((a : ℕ) × (b : ℕ) × Over max (used st) n a b))
        ⊎ ((step_set take give used (f ∷ g ∷ fs) max c st d ≡ one)
            × ((a b : ℕ) → ¬ Over max (used st) n a b))
  unfolding step_set
  step_set-attempts f g fs max c st d h w =
      let more : (length (g ∷ fs) == 0) ≡ false = ground arith in
      let share = head_budget max (used st) (suc (suc (length fs))) in
      elim (Bool-cases (ltb share (budget max (used st)))) [
        | inl e ↦
            let both : (not (length (g ∷ fs) == 0) && ltb share (budget max (used st))) ≡ true =
              rw (more, e) refl in
            inl (rw both refl, (share + 1, 0, some_room max (used st) (suc (length fs)) h w e))
        | inr e ↦
            let both : (not (length (g ∷ fs) == 0) && ltb share (budget max (used st))) ≡ false =
              rw (more, e) refl in
            inr (rw both refl, λ a b. no_room max (used st) (suc (length fs)) a b h w e)
      ]

-- Once more nodes are used than the limit allows, as a starting clause that costs more than the
-- limit does, the unsigned difference wraps: the first of two subgoals is given a limit of at
-- least 2^62 nodes.
pub overrun_unlimited : (max used : ℕ) → max < used → used < 2 ^ 62 → 2 ^ 62 ≤ head_max max used 2
unfolding head_max head_budget budget
overrun_unlimited max used h w = omega arith
