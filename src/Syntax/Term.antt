-- ===== src/Syntax/Term.antt =====
-- `Term`, `Var` and `Fun` of lazyparam_prover/syntax/term.h with every offset pushed down to the
-- variables; `Syntax.Rep` models the pointers with offsets and proves that they denote these.
pub mod Laws
use tptp_benchmark_go.Prelude.{
  ℕ, zero, suc, ◌+◌, ◌≡◌, Bool, true, false, Option, none, some, ◌>>=◌, ◌==◌, if◌then◌else◌, List,
  [], ◌∷◌,
}
use tptp_benchmark_go.Syntax.Range.{VarRange, no_vars, join}

mutual
  pub data Term : Type 0 where
    var : ℕ → Term
    fun : ℕ → Terms → Term

  pub data Terms : Type 0 where
    nil : Terms
    cons : Term → Terms → Terms

-- `arg_count()`
abbrev pub arg_count : Terms → ℕ
arg_count nil = 0
arg_count (cons t ts) = suc (arg_count ts)

-- `arg(i)`; `none` is a read past the end
abbrev pub arg : Terms → ℕ → Option Term
arg nil i = none
arg (cons t ts) zero = some t
arg (cons t ts) (suc i) = arg ts i

abbrev pub set_arg : Terms → ℕ → Term → Terms
set_arg nil i t = nil
set_arg (cons x xs) zero t = cons t xs
set_arg (cons x xs) (suc i) t = cons x (set_arg xs i t)

abbrev pub of_list : List Term → Terms
of_list [] = nil
of_list (t ∷ ts) = cons t (of_list ts)

-- The variables renamed by a function of their ids.
unfoldable mutual
  pub rename : (ℕ → ℕ) → Term → Term
  rename f (var i) = var (f i)
  rename f (fun g ts) = fun g (rename_args f ts)

  pub rename_args : (ℕ → ℕ) → Terms → Terms
  rename_args f nil = nil
  rename_args f (cons t ts) = cons (rename f t) (rename_args f ts)

-- `shift(offset)`
abbrev pub shift : ℕ → Term → Term
shift d = rename (λ i. i + d)

abbrev pub shift_args : ℕ → Terms → Terms
shift_args d = rename_args (λ i. i + d)

-- `var_range()`: a builder joins the ranges of the arguments to `{0, 0}`.
unfoldable mutual
  pub var_range : Term → VarRange
  var_range (var i) = record { begin = i; end = i + 1 }
  var_range (fun f ts) = join_args no_vars ts

  pub join_args : VarRange → Terms → VarRange
  join_args r nil = r
  join_args r (cons t ts) = join_args (join r (var_range t)) ts

-- `operator==`, the last argument first. `none` is the debug build's stop at arguments that
-- differ in number.
unfoldable mutual
  pub eq_term : Term → Term → Option Bool
  eq_term (var i) (var j) = some (i == j)
  eq_term (var i) (fun g us) = some false
  eq_term (fun f ts) (var j) = some false
  eq_term (fun f ts) (fun g us) = if f == g then eq_args ts us else some false

  pub eq_args : Terms → Terms → Option Bool
  eq_args nil nil = some true
  eq_args nil (cons u us) = none
  eq_args (cons t ts) nil = none
  eq_args (cons t ts) (cons u us) = eq_args ts us >>= λ b. if b then eq_term t u else some false

-- Every variable satisfies `P`.
abbrev mutual
  pub AllVars : (ℕ → Type 0) → Term → Type 0
  AllVars P (var i) = P i
  AllVars P (fun f ts) = AllVarsArgs P ts

  pub AllVarsArgs : (ℕ → Type 0) → Terms → Type 0
  AllVarsArgs P nil = Unit
  AllVarsArgs P (cons t ts) = AllVars P t × AllVarsArgs P ts

-- Every functor has as many arguments as `ar` says: what the parser guarantees of a problem.
abbrev mutual
  pub HasArity : (ℕ → ℕ) → Term → Type 0
  HasArity ar (var i) = Unit
  HasArity ar (fun f ts) = (arg_count ts ≡ ar f) × HasArityArgs ar ts

  pub HasArityArgs : (ℕ → ℕ) → Terms → Type 0
  HasArityArgs ar nil = Unit
  HasArityArgs ar (cons t ts) = HasArity ar t × HasArityArgs ar ts
