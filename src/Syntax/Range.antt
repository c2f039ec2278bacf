-- ===== src/Syntax/Range.antt =====
-- `VarRange` of lazyparam_prover/syntax/term.h: a half-open interval that bounds variable ids.

use tptp_benchmark_go.Prelude.{
  ℕ, ◌+◌, ◌≤◌, ◌<◌, ◌≡◌, min, max, Bool, ◌&&◌, leb, ltb, ◌==◌, if◌then◌else◌, arith,
}

pub record VarRange : Type 0 where
  pub begin : ℕ
  pub end : ℕ

-- the `{0, 0}` that the builders start from
abbrev pub no_vars : VarRange
no_vars = record { begin = 0; end = 0 }

unfoldable pub is_empty : VarRange → Bool
is_empty r = leb r.end r.begin

-- `util::mini(a, b)`, `util::maxi(a, b)`
unfoldable pub mini : ℕ → ℕ → ℕ
mini a b = if ltb b a then b else a

unfoldable pub maxi : ℕ → ℕ → ℕ
maxi a b = if ltb a b then b else a

-- `operator|=`
unfoldable pub join : VarRange → VarRange → VarRange
unfolding is_empty mini maxi
join a r =
    if is_empty r
    then a
    else if is_empty a
    then r
    else record { begin = mini a.begin r.begin; end = maxi a.end r.end }

-- `operator+`
unfoldable pub offset_by : ℕ → VarRange → VarRange
offset_by d r = record { begin = r.begin + d; end = r.end + d }

unfoldable pub eq_range : VarRange → VarRange → Bool
eq_range a b = (a.begin == b.begin) && (a.end == b.end)

-- The id lies in the range.
pub record Has (r : VarRange) (i : ℕ) : Type 0 where
  pub low : r.begin ≤ i
  pub high : i < r.end

pub Has-join_left : (a b : VarRange) (i : ℕ) → Has a i → Has (join a b) i
unfolding join
Has-join_left a b i h = ground arith

pub Has-join_right : (a b : VarRange) (i : ℕ) → Has b i → Has (join a b) i
unfolding join
Has-join_right a b i h = ground arith

pub Has-offset_by : (d : ℕ) (r : VarRange) (i : ℕ) → Has r i → Has (offset_by d r) (i + d)
unfolding offset_by
Has-offset_by d r i h = ground arith

-- The join is the least range over two ranges that are not empty: it holds the ids of both, and
-- its ends are ends of one of them.
pub join_hull :
    (a b : VarRange)
    → a.begin < a.end
    → b.begin < b.end
    → ((join a b).begin ≡ min a.begin b.begin) × ((join a b).end ≡ max a.end b.end)
unfolding join
join_hull a b h g = ground arith
