-- ===== src/Syntax/Atom.antt =====
-- `Atom` of lazyparam_prover/syntax/atom.h, over terms with their offsets pushed down.
-- The source keeps a pointer to the predicate and its arguments, shared by the copies that
-- `shift`, `neg`, `set_id` and `set_strong_only` return.
use tptp_benchmark_go.Prelude.{
  ℕ, ◌-◌, ◌≡◌, refl, ap, ◌^◌, Bool, true, false, not, Option, none, some, ◌==◌, if◌then◌else◌,
}
use tptp_benchmark_go.Syntax.Range.{VarRange, no_vars}
use tptp_benchmark_go.Syntax.Term.{
  Term, Terms, arg_count, nil, cons, set_arg, shift_args, join_args, eq_args,
}

pub record Atom : Type 0 where
  pub sign : Bool
  pub pred : ℕ
  pub args : Terms
  pub id : ℕ
  pub strong_only : Bool

-- `enum Pred`: 64-bit values counted down from -1
abbrev pub eq_pred : ℕ
eq_pred = 2 ^ 64 - 1

abbrev pub eq_trans_pos : ℕ
eq_trans_pos = 2 ^ 64 - 2

abbrev pub eq_trans_neg : ℕ
eq_trans_neg = 2 ^ 64 - 3

abbrev pub eq_symm : ℕ
eq_symm = 2 ^ 64 - 4

abbrev pub pred_min : ℕ
pred_min = eq_symm

-- `Builder(...)` with all `set_arg` calls, and `build()`: the id starts at 0
abbrev pub build : Bool → ℕ → Terms → Bool → Atom
build s p ts strong = record { sign = s; pred = p; args = ts; id = 0; strong_only = strong }

-- `Atom(a, sign, pred, args)`
abbrev pub make : Bool → ℕ → Terms → Atom
make s p ts = build s p ts false

-- `Atom::eq(a, sign, l, r)`
abbrev pub eq : Bool → Term → Term → Atom
eq s l r = build s eq_pred (cons l (cons r nil)) false

-- The range of the arguments. The source stores it, and after `replace_arg` it covers the replaced
-- argument as well.
unfoldable pub var_range : Atom → VarRange
var_range a = join_args no_vars a.args

unfoldable pub shift : ℕ → Atom → Atom
shift d a = record a { args = shift_args d a.args }

unfoldable pub neg : Atom → Atom
neg a = record a { sign = not a.sign }

unfoldable pub set_id : ℕ → Atom → Atom
set_id i a = record a { id = i }

unfoldable pub set_strong_only : Atom → Atom
set_strong_only a = record a { strong_only = true }

-- `replace_arg(a, i, t)`: built anew, so the id is 0 again; the stored range is not part of it
unfoldable pub replace_arg : ℕ → Term → Atom → Atom
replace_arg i t a = build a.sign a.pred (set_arg a.args i t) a.strong_only

-- `==` on the signs
abbrev pub same_sign : Bool → Bool → Bool
same_sign true b = b
same_sign false b = not b

-- `operator==`: ids and `strong_only` are not compared; `none` is the debug build's stop
unfoldable pub eq_atom : Atom → Atom → Option Bool
eq_atom x y =
    if x.pred == y.pred
    then (if arg_count x.args == arg_count y.args
        then (if same_sign x.sign y.sign then eq_args x.args y.args else some false)
        else none)
    else some false

-- Negating twice gives the atom back.
pub neg-neg : (a : Atom) → neg (neg a) ≡ a
unfolding neg
neg-neg a = ap (λ s. record a { sign = s }) (twice a.sign)
  where
    twice : (b : Bool) → not (not b) ≡ b
    twice true = refl
    twice false = refl
