-- ===== src/Syntax/Rep/Built.antt =====
-- The pointers that the operations of lazyparam_prover/syntax/term.h make.
use tptp_benchmark_go.Prelude.{ℕ}
use tptp_benchmark_go.Syntax.Range.{Has}
use tptp_benchmark_go.Syntax.Term.{AllVars}
use tptp_benchmark_go.Syntax.Rep.{
  Refs, nil, cons, Ref, shift, var_range, make_var, make_fun, replace_arg, denote,
}
use tptp_benchmark_go.Syntax.Rep.Laws.{
  Covered, CoveredRefs, make_fun-Covered, replace_arg-Covered, var_range-holds,
}

-- The pointers that the operations of a program make: variables, functors of such pointers, and
-- what `shift` and `replace_arg` return.
mutual
  pub data Built : Ref → Type 0 where
    built_var : (id : ℕ) → Built (make_var id)
    built_fun : (f : ℕ) (rs : Refs) → BuiltRefs rs → Built (make_fun f rs)
    built_shift : (d : ℕ) (r : Ref) → Built r → Built (shift d r)
    built_replace : (r : Ref) (i : ℕ) (t : Ref) → Built r → Built t → Built (replace_arg r i t)

  pub data BuiltRefs : Refs → Type 0 where
    built_nil : BuiltRefs nil
    built_cons : (r : Ref) (rs : Refs) → Built r → BuiltRefs rs → BuiltRefs (cons r.ptr r.offset rs)

mutual
  unfolding make_var shift Covered

  Built-Covered : (r : Ref) → Built r → Covered r.ptr
  Built-Covered _ (built_var id) = tt
  Built-Covered _ (built_fun f rs b) = (make_fun-Covered f rs (BuiltRefs-Covered rs b)).0
  Built-Covered _ (built_shift d r b) = Built-Covered r b
  Built-Covered _ (built_replace r i t b c) =
      (replace_arg-Covered r i t (Built-Covered r b) (Built-Covered t c)).0

  BuiltRefs-Covered : (rs : Refs) → BuiltRefs rs → CoveredRefs rs
  BuiltRefs-Covered _ built_nil = tt
  BuiltRefs-Covered _ (built_cons r rs b bs) = (Built-Covered r b, BuiltRefs-Covered rs bs)

-- `var_range()` of each pointer that was made of variables by building functors, `shift` and
-- `replace_arg`, in any order, holds every variable of the term that it stands for.
pub var_range-Built : (r : Ref) → Built r → AllVars (Has (var_range r)) (denote r)
var_range-Built r b = var_range-holds r (Built-Covered r b)
