-- ===== src/Order/Constraint/Laws.antt =====
-- The reduction of a constraint (lazyparam_prover/constraint.h) is right for every order that
-- the comparisons agree with.
use Prim.Native.Nat.{bit_and}
use tptp_benchmark_go.Prelude.{
  ℕ, ◌<◌, ◌≡◌, Bool, true, false, Option, some, ◌==◌, not, ◌&&◌, List, [], ◌∷◌, length, arith,
}
use tptp_benchmark_go.Syntax.Term.{Term}
use tptp_benchmark_go.Order.Constraint.{
  Relation, bits, Status, holds, fails, unknown, TermPair, OrderAtom, decide, verdict, is_e, is_nil,
  drop,
}

-- How two terms compare in a total order.
pub data Side : Type 0 where
  less greater equal : Side

abbrev pub side_bit : Side → ℕ
side_bit less = 1
side_bit greater = 2
side_bit equal = 4

-- The side is one of those that the relation allows.
abbrev pub allows : Relation → Side → Bool
allows r s = bit_and (bits r) (side_bit s) == side_bit s

pub verdict_holds :
    (got want : Relation) (s : Side)
    → verdict got want ≡ holds
    → allows got s ≡ true
    → allows want s ≡ true
unfolding verdict
verdict_holds got want s h p = ground arith

pub verdict_fails :
    (got want : Relation) (s : Side)
    → verdict got want ≡ fails
    → allows got s ≡ true
    → allows want s ≡ false
unfolding verdict
verdict_fails got want s h p = ground arith

module _ (actual : Term → Term → Side) where
  -- The first pair that is not equal decides.
  unfoldable pub lex_step : Side → Side → Side
  lex_step equal rest = rest
  lex_step less rest = less
  lex_step greater rest = greater

  -- How two tuples of terms, given as pairs, compare lexicographically.
  unfoldable pub lex : List TermPair → Side
  lex [] = equal
  lex (p ∷ ps) = lex_step (actual p.a p.b) (lex ps)

  -- The order allows what the constraint says.
  abbrev pub Satisfied : OrderAtom → Type 0
  Satisfied c = allows c.rel (lex c.pairs) ≡ true

  -- What the status of a constraint says of it: it is satisfied, it is not, or the pairs before
  -- `done` are equal and one is left to look at.
  abbrev pub Means : Status → OrderAtom → Type 0
  Means holds c = Satisfied c
  Means fails c = allows c.rel (lex c.pairs) ≡ false
  Means unknown c = (c.done < length c.pairs) × (lex c.pairs ≡ lex (drop c.done c.pairs))

  -- On these pairs the comparison returns, and allows the actual order of the two terms.
  unfoldable pub Agrees : (Term → Term → Option Relation) → List TermPair → Type 0
  Agrees cmp [] = Unit
  Agrees cmp (p ∷ ps) =
      ((r : Relation) × (cmp p.a p.b ≡ some r) × (allows r (actual p.a p.b) ≡ true)) × Agrees cmp ps

  pub decide-allows :
      (r : Relation) (p : TermPair) (ps : List TermPair)
      → (not (is_nil ps) && is_e r) ≡ false
      → allows r (actual p.a p.b) ≡ true
      → allows (decide r (is_nil ps)) (lex (p ∷ ps)) ≡ true
  unfolding decide is_nil is_e lex lex_step
  decide-allows r p [] h a = ground arith
  decide-allows r p (q ∷ ps) h a = ground arith
