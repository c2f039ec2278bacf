-- ===== src/Syntax/Rep/Laws.antt =====
-- Pointers with offsets (lazyparam_prover/syntax/term.h) implement terms.
use tptp_benchmark_go.Prelude.{
  ℕ, zero, suc, ◌+◌, ◌≡◌, refl, sym, ap, ap₂, ◌∙◌, subst, ◌>>=◌, Option, none, some, arith,
}
use tptp_benchmark_go.Syntax.Range.{
  VarRange, no_vars, join, offset_by, Has, Has-join_left, Has-join_right, Has-offset_by,
}
use tptp_benchmark_go.Syntax.Term
use tptp_benchmark_go.Syntax.Term.{Term, Terms, AllVars, AllVarsArgs}
use tptp_benchmark_go.Syntax.Term.Laws.{AllVars-mono, AllVarsArgs-mono}
use tptp_benchmark_go.Syntax.Rep.{
  Cell, var_cell, fun_cell, Refs, nil, cons, Ref, shift, nth, arg, cell_range, var_range, join_refs,
  make_fun, set_ref, shift_refs, replace_arg, denote_cell, denote_refs, denote,
}

mutual
  unfolding denote_cell Term.rename

  denote_shifted : (c : Cell) (o d : ℕ) → denote_cell (o + d) c ≡ Term.shift d (denote_cell o c)
  denote_shifted var_cell o d = refl
  denote_shifted (fun_cell r f rs) o d = ap (Term.fun f) (denote_refs_shifted rs o d)

  denote_refs_shifted :
      (rs : Refs) (o d : ℕ) → denote_refs (o + d) rs ≡ Term.shift_args d (denote_refs o rs)
  denote_refs_shifted nil o d = refl
  denote_refs_shifted (cons c p rs) o d =
      ap₂ Terms.cons (ap (λ n. denote_cell n c) (omega arith) ∙ denote_shifted c (p + o) d)
        (denote_refs_shifted rs o d)

-- `shift` of a pointer is `shift` of the term: all variables move by the offset.
pub denote-shift : (d : ℕ) (r : Ref) → denote (shift d r) ≡ Term.shift d (denote r)
unfolding shift
denote-shift d r = denote_shifted r.ptr r.offset d

-- the arguments of a term
abbrev pub term_args : Term → Terms
term_args (Term.var i) = Terms.nil
term_args (Term.fun f ts) = ts

abbrev pub denote? : Option Ref → Option Term
denote? none = none
denote? (some a) = some (denote a)

nth-denote :
    (rs : Refs) (o i : ℕ)
    → denote? (nth rs i >>= λ a. some (shift o a)) ≡ Term.arg (denote_refs o rs) i
unfolding nth denote_refs shift
nth-denote nil o i = refl
nth-denote (cons c p rs) o zero = refl
nth-denote (cons c p rs) o (suc i) = nth-denote rs o i

arg_cell :
    (c : Cell) (o i : ℕ)
    → denote? (arg (record { ptr = c; offset = o }) i) ≡ Term.arg (term_args (denote_cell o c)) i
unfolding arg denote_cell
arg_cell var_cell o i = refl
arg_cell (fun_cell r f rs) o i = nth-denote rs o i

-- `arg(i)` stands for the i-th argument of the term that `r` stands for, and reads past the end
-- exactly where that term has no such argument.
pub denote-arg : (r : Ref) (i : ℕ) → denote? (arg r i) ≡ Term.arg (term_args (denote r)) i
denote-arg r i = arg_cell r.ptr r.offset i

-- Every stored range holds the variables below it.
unfoldable mutual
  pub Covered : Cell → Type 0
  Covered var_cell = Unit
  Covered (fun_cell r f rs) = AllVarsArgs (Has r) (denote_refs 0 rs) × CoveredRefs rs

  pub CoveredRefs : Refs → Type 0
  CoveredRefs nil = Unit
  CoveredRefs (cons c o rs) = Covered c × CoveredRefs rs

mutual
  unfolding Term.rename

  shifted_vars :
      (P Q : ℕ → Type 0) (d : ℕ)
      → ((i : ℕ) → P i → Q (i + d))
      → (t : Term) → AllVars P t
      → AllVars Q (Term.shift d t)
  shifted_vars P Q d f (Term.var i) h = f i h
  shifted_vars P Q d f (Term.fun g ts) h = shifted_vars_args P Q d f ts h

  shifted_vars_args :
      (P Q : ℕ → Type 0) (d : ℕ)
      → ((i : ℕ) → P i → Q (i + d))
      → (ts : Terms) → AllVarsArgs P ts
      → AllVarsArgs Q (Term.shift_args d ts)
  shifted_vars_args P Q d f Terms.nil h = tt
  shifted_vars_args P Q d f (Terms.cons t ts) h =
      (shifted_vars P Q d f t h.0, shifted_vars_args P Q d f ts h.1)

cell_range-holds : (c : Cell) (o : ℕ) → Covered c → AllVars (Has (cell_range c o)) (denote_cell o c)
unfolding cell_range denote_cell Covered
cell_range-holds var_cell o v = omega arith
cell_range-holds (fun_cell r f rs) o v =
    subst (AllVarsArgs (Has (offset_by o r)))
      (sym (ap (λ n. denote_refs n rs) (omega arith) ∙ denote_refs_shifted rs 0 o))
      (shifted_vars_args (Has r) (Has (offset_by o r)) o (λ i h. Has-offset_by o r i h)
        (denote_refs 0 rs) v.0)

-- Below a covering range `var_range()` holds every variable.
pub var_range-holds : (r : Ref) → Covered r.ptr → AllVars (Has (var_range r)) (denote r)
unfolding var_range
var_range-holds r v = cell_range-holds r.ptr r.offset v

Has-join_refs : (r : VarRange) (rs : Refs) (i : ℕ) → Has r i → Has (join_refs r rs) i
unfolding join_refs
Has-join_refs r nil i h = h
Has-join_refs r (cons c o rs) i h =
    Has-join_refs (join r (cell_range c o)) rs i (Has-join_left r (cell_range c o) i h)

join_refs-holds :
    (r : VarRange) (rs : Refs)
    → CoveredRefs rs
    → AllVarsArgs (Has (join_refs r rs)) (denote_refs 0 rs)
unfolding join_refs denote_refs CoveredRefs
join_refs-holds r nil v = tt
join_refs-holds r (cons c o rs) v = (
  AllVars-mono (Has (cell_range c o)) (Has (join_refs (join r (cell_range c o)) rs))
      (λ i h. Has-join_refs (join r (cell_range c o)) rs i (Has-join_right r (cell_range c o) i h))
      (denote_cell (o + 0) c)
      (subst (λ n. AllVars (Has (cell_range c o)) (denote_cell n c)) (omega arith)
        (cell_range-holds c o v.0)),
  join_refs-holds (join r (cell_range c o)) rs v.1,
)

-- A functor built from covered arguments is covered, and stands for the term built of theirs.
pub make_fun-Covered :
    (f : ℕ) (rs : Refs)
    → CoveredRefs rs
    → Covered (make_fun f rs).ptr × (denote (make_fun f rs) ≡ Term.fun f (denote_refs 0 rs))
unfolding make_fun Covered denote_cell
make_fun-Covered f rs v = ((join_refs-holds no_vars rs v, v), refl)

shift_refs-Covered : (d : ℕ) (rs : Refs) → CoveredRefs rs → CoveredRefs (shift_refs d rs)
unfolding shift_refs Covered
shift_refs-Covered d nil v = tt
shift_refs-Covered d (cons c o rs) v = (v.0, shift_refs-Covered d rs v.1)

denote_refs-shift_refs : (d : ℕ) (rs : Refs) → denote_refs 0 (shift_refs d rs) ≡ denote_refs d rs
unfolding shift_refs denote_refs
denote_refs-shift_refs d nil = refl
denote_refs-shift_refs d (cons c o rs) =
    ap₂ Terms.cons (ap (λ n. denote_cell n c) (omega arith)) (denote_refs-shift_refs d rs)

set_ref-Covered :
    (rs : Refs) (i : ℕ) (t : Ref) → CoveredRefs rs → Covered t.ptr → CoveredRefs (set_ref rs i t)
unfolding set_ref Covered
set_ref-Covered nil i t v w = tt
set_ref-Covered (cons c o rs) zero t v w = (w, v.1)
set_ref-Covered (cons c o rs) (suc i) t v w = (v.0, set_ref-Covered rs i t v.1 w)

denote_refs-set_ref :
    (rs : Refs) (i : ℕ) (t : Ref)
    → denote_refs 0 (set_ref rs i t) ≡ Term.set_arg (denote_refs 0 rs) i (denote t)
unfolding set_ref denote_refs
denote_refs-set_ref nil i t = refl
denote_refs-set_ref (cons c o rs) zero t =
    ap (λ n. Terms.cons (denote_cell n t.ptr) (denote_refs 0 rs)) (omega arith)
denote_refs-set_ref (cons c o rs) (suc i) t =
    ap (Terms.cons (denote_cell (o + 0) c)) (denote_refs-set_ref rs i t)

set_arg-AllVars :
    (P : ℕ → Type 0) (ts : Terms) (i : ℕ) (t : Term)
    → AllVarsArgs P ts
    → AllVars P t
    → AllVarsArgs P (Term.set_arg ts i t)
set_arg-AllVars P Terms.nil i t v w = tt
set_arg-AllVars P (Terms.cons u ts) zero t v w = (w, v.1)
set_arg-AllVars P (Terms.cons u ts) (suc i) t v w = (v.0, set_arg-AllVars P ts i t v.1 w)

replaced :
    (old : VarRange) (f : ℕ) (rs : Refs) (d i : ℕ) (t : Ref)
    → CoveredRefs rs
    → Covered t.ptr
    → let u = replace_arg (record { ptr = fun_cell old f rs; offset = d }) i t in
      Covered u.ptr × (denote u ≡ Term.fun f (Term.set_arg (denote_refs d rs) i (denote t)))
unfolding replace_arg Covered denote_cell
replaced old f rs d i t v w =
    let ss = shift_refs d rs in
    let cs = shift_refs-Covered d rs v in
    let r = join (join_refs no_vars ss) (var_range t) in
    let e = denote_refs-set_ref ss i t in
    (
      (
        subst (AllVarsArgs (Has r)) (sym e) (
            set_arg-AllVars (Has r) (denote_refs 0 ss) i (denote t)
              (AllVarsArgs-mono (Has (join_refs no_vars ss)) (Has r)
                (λ j h. Has-join_left (join_refs no_vars ss) (var_range t) j h) (denote_refs 0 ss)
                (join_refs-holds no_vars ss cs))
              (AllVars-mono (Has (var_range t)) (Has r)
                (λ j h. Has-join_right (join_refs no_vars ss) (var_range t) j h) (denote t)
                (var_range-holds t w))),
        set_ref-Covered ss i t cs w,
      ),
      ap (Term.fun f) (e ∙ ap (λ l. Term.set_arg l i (denote t)) (denote_refs-shift_refs d rs)),
    )

-- a term with its i-th argument replaced
abbrev pub set_term_arg : ℕ → Term → Term → Term
set_term_arg i u (Term.var j) = Term.var j
set_term_arg i u (Term.fun f ts) = Term.fun f (Term.set_arg ts i u)

replaced_any :
    (c : Cell) (o i : ℕ) (t : Ref)
    → Covered c
    → Covered t.ptr
    → let u = replace_arg (record { ptr = c; offset = o }) i t in
      Covered u.ptr × (denote u ≡ set_term_arg i (denote t) (denote_cell o c))
unfolding replace_arg denote_cell Covered
replaced_any var_cell o i t v w = (tt, refl)
replaced_any (fun_cell old f rs) o i t v w = replaced old f rs o i t v.1 w

-- `replace_arg` keeps the ranges covering, and stands for the same term, with the same functor,
-- but with its i-th argument replaced.
pub replace_arg-Covered :
    (r : Ref) (i : ℕ) (t : Ref)
    → Covered r.ptr
    → Covered t.ptr
    → Covered (replace_arg r i t).ptr
      × (denote (replace_arg r i t) ≡ set_term_arg i (denote t) (denote r))
replace_arg-Covered r i t v w = replaced_any r.ptr r.offset i t v w
