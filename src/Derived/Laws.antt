-- ===== src/Derived/Laws.antt =====
-- Rebuilding a derived clause (lazyparam_prover/derived.h).
use tptp_benchmark_go.Prelude.{◌≡◌, refl, ap, ap₂, ◌∙◌, List, [], ◌∷◌, map, reverse, arith}
use tptp_benchmark_go.Syntax.Term
use tptp_benchmark_go.Syntax.Term.{Term, Terms, var, fun, nil, cons, rename, rename_args}
use tptp_benchmark_go.Syntax.Atom
use tptp_benchmark_go.Syntax.Atom.{Atom}
use tptp_benchmark_go.Syntax.Clause
use tptp_benchmark_go.Syntax.Clause.{AndClause}
use tptp_benchmark_go.Derived.{DerAndClause, derived, sources, build, to_builder, cost}

mutual
  unfolding rename rename_args

  shift_zero : (t : Term) → Term.shift 0 t ≡ t
  shift_zero (var i) = ap var (omega arith)
  shift_zero (fun f ts) = ap (fun f) (shift_args_zero ts)

  shift_args_zero : (ts : Terms) → Term.shift_args 0 ts ≡ ts
  shift_args_zero nil = refl
  shift_args_zero (cons t ts) = ap₂ cons (shift_zero t) (shift_args_zero ts)

pub atoms-shift_zero : (l : List Atom) → map (Atom.shift 0) l ≡ l
unfolding Atom.shift
atoms-shift_zero [] = refl
atoms-shift_zero (a ∷ l) =
    ap₂ (λ (x : Atom) (y : List Atom). x ∷ y)
      (ap (λ ts. record a { args = ts }) (shift_args_zero a.args)) (atoms-shift_zero l)

pub clause-shift_zero : (c : AndClause) → Clause.shift 0 c ≡ c
unfolding Clause.shift
clause-shift_zero c = ap (λ l. record c { stored = l }) (atoms-shift_zero c.stored)

pub map-shift_zero : (l : List AndClause) → map (Clause.shift 0) l ≡ l
map-shift_zero [] = refl
map-shift_zero (c ∷ l) =
    ap₂ (λ (x : AndClause) (y : List AndClause). x ∷ y) (clause-shift_zero c) (map-shift_zero l)

-- A clause that was shifted is shifted by the same offset once more when it is rebuilt.
pub derived-build :
    (c : DerAndClause) → derived (build (to_builder c)) ≡ Clause.shift c.offset (derived c)
unfolding derived build to_builder Clause.shift Clause.set_id_offset
derived-build c = refl

-- Without an offset, a clause that is rebuilt keeps its atoms and cost, and has its sources in the
-- reverse order.
pub rebuild_unshifted :
    (c : DerAndClause)
    → c.offset ≡ 0
    → (derived (build (to_builder c)) ≡ derived c)
      × (cost (build (to_builder c)) ≡ cost c)
      × (sources (build (to_builder c)) ≡ reverse (sources c))
unfolding build to_builder cost sources
rebuild_unshifted c h = (
  derived-build c ∙ ap (λ d. Clause.shift d (derived c)) h ∙ clause-shift_zero (derived c),
  refl,
  ap (λ d. map (Clause.shift d) (reverse (sources c))) h ∙ map-shift_zero (reverse (sources c)),
)
