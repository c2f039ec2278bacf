-- ===== src/Syntax/Rep.antt =====
-- The representation of terms in lazyparam_prover/syntax/term.h: a pointer to an immutable record
-- in the allocator's memory, and an offset that is added to every variable id below it.
-- A record of a functor stores the range of its variables, the functor and its arguments.
pub mod Laws
pub mod Built
use tptp_benchmark_go.Prelude.{ℕ, zero, suc, ◌+◌, Bool, true, false, Option, none, some, ◌>>=◌}
use tptp_benchmark_go.Syntax.Range.{VarRange, no_vars, join, offset_by}
use tptp_benchmark_go.Syntax.Term
use tptp_benchmark_go.Syntax.Term.{Term, Terms}

mutual
  -- what `ptr` points to
  pub data Cell : Type 0 where
    var_cell : Cell
    fun_cell : VarRange → ℕ → Refs → Cell

  -- the array of arguments, each a pointer with an offset
  pub data Refs : Type 0 where
    nil : Refs
    cons : Cell → ℕ → Refs → Refs

-- `struct Term`
pub record Ref : Type 0 where
  pub ptr : Cell
  pub offset : ℕ

unfoldable pub shift : ℕ → Ref → Ref
shift d r = record r { offset = r.offset + d }

-- `Var(a, id)`
unfoldable pub make_var : ℕ → Ref
make_var id = record { ptr = var_cell; offset = id }

unfoldable pub nth : Refs → ℕ → Option Ref
nth nil i = none
nth (cons c o rs) zero = some (record { ptr = c; offset = o })
nth (cons c o rs) (suc i) = nth rs i

unfoldable pub args_of : Cell → Refs
args_of var_cell = nil
args_of (fun_cell r f rs) = rs

-- `Fun::arg(i)`: the stored argument, shifted by the functor's own offset
unfoldable pub arg : Ref → ℕ → Option Ref
unfolding nth args_of shift
arg r i = nth (args_of r.ptr) i >>= λ a. some (shift r.offset a)

-- `Var::var_range()` and `Fun::var_range()`
unfoldable pub cell_range : Cell → ℕ → VarRange
cell_range var_cell o = record { begin = o; end = o + 1 }
cell_range (fun_cell r f rs) o = offset_by o r

unfoldable pub var_range : Ref → VarRange
unfolding cell_range offset_by
var_range r = cell_range r.ptr r.offset

-- The range that a builder has after `set_arg` of each argument.
unfoldable pub join_refs : VarRange → Refs → VarRange
join_refs r nil = r
join_refs r (cons c o rs) = join_refs (join r (cell_range c o)) rs

-- `Fun(a, fun, args)`
unfoldable pub make_fun : ℕ → Refs → Ref
unfolding join_refs cell_range
make_fun f rs = record { ptr = fun_cell (join_refs no_vars rs) f rs; offset = 0 }

unfoldable pub set_ref : Refs → ℕ → Ref → Refs
set_ref nil i t = nil
set_ref (cons c o rs) zero t = cons t.ptr t.offset rs
set_ref (cons c o rs) (suc i) t = cons c o (set_ref rs i t)

-- each argument shifted by the functor's offset
unfoldable pub shift_refs : ℕ → Refs → Refs
shift_refs d nil = nil
shift_refs d (cons c o rs) = cons c (o + d) (shift_refs d rs)

-- `replace_arg(a, i, t)`: the builder takes all old arguments, and then `t` in place of the i-th,
-- so the stored range still covers the old one.
unfoldable pub replace_arg : Ref → ℕ → Ref → Ref
unfolding set_ref shift_refs join_refs var_range args_of
replace_arg r i t = elim (r.ptr) [
  | var_cell ↦ r
  | fun_cell old f rs ↦ record {
    ptr =
        fun_cell (join (join_refs no_vars (shift_refs r.offset rs)) (var_range t)) f
          (set_ref (shift_refs r.offset rs) i t);
    offset = 0;
  }
]

-- The term that a pointer with an offset stands for.
unfoldable mutual
  pub denote_cell : ℕ → Cell → Term
  denote_cell o var_cell = Term.var o
  denote_cell o (fun_cell r f rs) = Term.fun f (denote_refs o rs)

  pub denote_refs : ℕ → Refs → Terms
  denote_refs o nil = Terms.nil
  denote_refs o (cons c p rs) = Terms.cons (denote_cell (p + o) c) (denote_refs o rs)

abbrev pub denote : Ref → Term
denote r = denote_cell r.offset r.ptr
