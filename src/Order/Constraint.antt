-- ===== src/Order/Constraint.antt =====
-- `OrderAtom` of lazyparam_prover/constraint.h: a lexicographic constraint on pairs of terms, and
-- its gradual reduction. An `offset` is pushed down to the terms.
pub mod Laws
pub mod Reduce
use Prim.Native.Nat.{bit_and}
use tptp_benchmark_go.Prelude.{
  ℕ, zero, suc, ◌+◌, Bool, true, false, Option, none, some, ◌>>=◌, ◌==◌, if◌then◌else◌, not, ◌&&◌,
  List, [], ◌∷◌, map, length,
}
use tptp_benchmark_go.Syntax.Range.{VarRange, no_vars, join}
use tptp_benchmark_go.Syntax.Term
use tptp_benchmark_go.Syntax.Term.{Term, Terms, nil, cons, eq_term}
use tptp_benchmark_go.Syntax.Atom.{Atom}

-- `enum Relation`: sets of `L`, `G` and `E`
pub data Relation : Type 0 where
  l g e le ge ne u : Relation

abbrev pub bits : Relation → ℕ
bits l = 1
bits g = 2
bits e = 4
bits le = 5
bits ge = 6
bits ne = 3
bits u = 7

pub data Status : Type 0 where
  holds fails unknown : Status

pub record TermPair : Type 0 where
  pub a : Term
  pub b : Term

pub record OrderAtom : Type 0 where
  pub rel : Relation
  pub pairs : List TermPair
  pub status : Status
  pub done : ℕ
  -- the range that is stored when the constraint is built
  pub range : VarRange

unfoldable pub shift_pair : ℕ → TermPair → TermPair
shift_pair d p = record { a = Term.shift d p.a; b = Term.shift d p.b }

unfoldable pub shift : ℕ → OrderAtom → OrderAtom
unfolding shift_pair
shift d c = record c { pairs = map (shift_pair d) c.pairs }

-- `set_pair` joins the range of `b` to that of `a`, and this to the builder's
unfoldable pub join_pairs : VarRange → List TermPair → VarRange
join_pairs r [] = r
join_pairs r (p ∷ ps) = join_pairs (join r (join (Term.var_range p.a) (Term.var_range p.b))) ps

-- The stored range, without the offset of a shift.
unfoldable pub var_range : OrderAtom → VarRange
var_range c = c.range

-- `decide(rel, last)`
unfoldable pub decide : Relation → Bool → Relation
decide l last = l
decide g last = g
decide e last = e
decide le last = if last then le else u
decide ge last = if last then ge else u
decide ne last = ne
decide u last = u

-- `(got & want) == got` and `(got & want) == 0`
unfoldable pub verdict : Relation → Relation → Status
verdict got want =
    if bit_and (bits got) (bits want) == bits got
    then holds
    else if bit_and (bits got) (bits want) == 0
    then fails
    else unknown

unfoldable pub is_e : Relation → Bool
is_e e = true
is_e _ = false

unfoldable pub is_nil : List TermPair → Bool
is_nil [] = true
is_nil (p ∷ ps) = false

-- The loop of `reduce` over the pairs from `_done` on: the new status and `_done`. `none` is a
-- read past the last pair, or a comparison that gave no result.
unfoldable pub reduce_from :
    (Term → Term → Option Relation) → Relation → List TermPair → ℕ → Option (Status × ℕ)
unfolding verdict decide is_e is_nil
reduce_from cmp want [] done = none
reduce_from cmp want (p ∷ ps) done =
    let next = reduce_from cmp want ps (done + 1) in
    cmp p.a p.b >>= λ r.
    if not (is_nil ps) && is_e r then next else some (verdict (decide r (is_nil ps)) want, done)

unfoldable pub drop : ℕ → List TermPair → List TermPair
drop zero ps = ps
drop (suc n) [] = []
drop (suc n) (p ∷ ps) = drop n ps

-- `reduce(cmp)`
unfoldable pub reduce : (Term → Term → Option Relation) → OrderAtom → Option OrderAtom
unfolding reduce_from drop
reduce cmp c = elim (c.status) [
  | holds ↦ some c
  | fails ↦ some c
  | unknown ↦ reduce_from cmp c.rel (drop c.done c.pairs) c.done >>= λ r.
      some (record c { status = r.0; done = r.1 })
]

-- `Builder(rel, n)` with all `set_pair` calls, and `build()`
unfoldable pub build : Relation → List TermPair → OrderAtom
unfolding join_pairs
build r ps = record {
  rel = r;
  pairs = ps;
  status = if length ps == 0 then (if bit_and (bits r) 4 == 0 then fails else holds) else unknown;
  done = 0;
  range = join_pairs no_vars ps;
}

-- the pairs of arguments; `none` if the numbers of arguments differ
unfoldable pub zip_args : Terms → Terms → Option (List TermPair)
zip_args nil nil = some []
zip_args nil (cons y ys) = none
zip_args (cons x xs) nil = none
zip_args (cons x xs) (cons y ys) = zip_args xs ys >>= λ ps. some (record { a = x; b = y } ∷ ps)

-- `neq(l, r)`: that two atoms differ; nothing to check if their predicates do.
-- The null pointer of that case has no range to read; the model gives it the empty one.
unfoldable pub neq : Atom → Atom → Option OrderAtom
unfolding build zip_args
neq x y =
    if x.pred == y.pred
    then (zip_args x.args y.args >>= λ ps. some (build ne ps))
    else some (record { rel = ne; pairs = []; status = holds; done = 0; range = no_vars })

-- `OrderAtom(a, rel, l, r)`
unfoldable pub single : Relation → Term → Term → OrderAtom
unfolding build
single r x y = build r (record { a = x; b = y } ∷ [])

-- `operator==`, the last pair first
unfoldable pub eq_pair : TermPair → TermPair → Option Bool
eq_pair p q = eq_term p.a q.a >>= λ x. if x then eq_term p.b q.b else some false

unfoldable pub eq_pairs : List TermPair → List TermPair → Option Bool
unfolding eq_pair
eq_pairs [] [] = some true
eq_pairs [] (q ∷ qs) = some false
eq_pairs (p ∷ ps) [] = some false
eq_pairs (p ∷ ps) (q ∷ qs) = eq_pairs ps qs >>= λ x. eq_pair p q >>= λ y. some (x && y)

unfoldable pub eq_order_atom : OrderAtom → OrderAtom → Option Bool
unfolding eq_pairs
eq_order_atom x y =
    if (bits x.rel == bits y.rel) && (length x.pairs == length y.pairs)
    then eq_pairs x.pairs y.pairs
    else some false
