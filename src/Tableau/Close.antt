-- ===== src/Tableau/Close.antt =====
-- Closing a branch with an atom of its path (`reduction` of
-- lazyparam_prover/connection_tableau/frames/weak.h).
use tptp_benchmark_go.Prelude.{ℕ, ◌≡◌, ◌↔◌, ◌⊎◌, List, [], ◌∷◌}
use tptp_benchmark_go.Syntax.Term.{Term}
use tptp_benchmark_go.Syntax.Atom.{Atom}
use tptp_benchmark_go.Order.Constrained.{ConstrainedValuation}
use tptp_benchmark_go.Order.FunOrd.{FunOrd}
use tptp_benchmark_go.Unify.Subst.{Solves}
use tptp_benchmark_go.Unify.Acyclic.{Acyclic}
use tptp_benchmark_go.Unify.Solve.{EquatesArgs}
use tptp_benchmark_go.Index.{ClauseIndex}
use tptp_benchmark_go.Index.Matches.{Matches}
use tptp_benchmark_go.Search.{SearchState}
use tptp_benchmark_go.Tableau.{Action, done}

module _ (ar : ℕ → ℕ) (ord : FunOrd) (index : ClauseIndex) (matches : Matches) where
  -- What a reduction with the two atoms calls: `done` in a state with the solutions that make the
  -- arguments equal, or nothing, where without constraints there is none of these.
  abbrev pub Reduced : SearchState → ℕ → Atom → Atom → List Action → Type 0
  Reduced st depth a b acts =
      ((w : ConstrainedValuation) × (acts ≡ done depth (record st { val = w }) ∷ [])
        × (a.pred ≡ b.pred)
        × ((s : ℕ → Term) → Solves s w.val ↔ (Solves s st.val.val × EquatesArgs a.args b.args s)))
      ⊎ ((acts ≡ [])
          × (st.val.constraints ≡ []
              → a.pred ≡ b.pred
              → (s : ℕ → Term) → Solves s st.val.val
              → ¬ EquatesArgs a.args b.args s))
