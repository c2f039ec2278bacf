-- ===== src/Derived/Allocate.antt =====
-- `Valuation::allocate` of lazyparam_prover/mgu.h on a derived clause.
use tptp_benchmark_go.Prelude.{ℕ, ◌+◌, ◌-◌, leb, if◌then◌else◌, map}
use tptp_benchmark_go.Memory.Rewind.{size, grow}
use tptp_benchmark_go.Syntax.Term
use tptp_benchmark_go.Syntax.Term.{Terms, rename_args}
use tptp_benchmark_go.Syntax.Atom.{Atom}
use tptp_benchmark_go.Syntax.Clause.{AndClause}
use tptp_benchmark_go.Order.Constraint.{OrderAtom, TermPair}
use tptp_benchmark_go.Derived.{DerAndClause, var_range}
use tptp_benchmark_go.Unify.{Valuation}

-- The parts of a clause with their variables renamed; the offset is added to them first.
unfoldable pub rename_atom : (ℕ → ℕ) → Atom → Atom
rename_atom f a = record a { args = rename_args f a.args }

unfoldable pub rename_clause : (ℕ → ℕ) → AndClause → AndClause
unfolding rename_atom
rename_clause f c = record c { stored = map (rename_atom f) c.stored }

unfoldable pub rename_pair : (ℕ → ℕ) → TermPair → TermPair
rename_pair f p = record { a = Term.rename f p.a; b = Term.rename f p.b }

unfoldable pub rename_constraint : (ℕ → ℕ) → OrderAtom → OrderAtom
unfolding rename_pair
rename_constraint f c = record c { pairs = map (rename_pair f) c.pairs }

-- `c.shift(size - begin)`. Where the new offset would wrap, all ids below it are moved at once, to
-- what they read after the wrap.
unfoldable pub relocate_clause : ℕ → ℕ → DerAndClause → DerAndClause
unfolding rename_clause rename_constraint
relocate_clause count begin c =
    if leb begin (c.offset + count)
    then record c { offset = c.offset + count - begin }
    else (let f : ℕ → ℕ = λ i. i + c.offset + count - begin in
        record c {
          ptr = record (c.ptr) {
            derived = rename_clause f c.ptr.derived;
            sources = map (rename_clause f) c.ptr.sources;
            constraints = map (rename_constraint f) c.ptr.constraints;
          };
          offset = 0;
        })

-- `allocate(c)`
unfoldable pub allocate_clause : Valuation → DerAndClause → DerAndClause × Valuation
unfolding relocate_clause var_range grow
allocate_clause val c =
    let r = var_range c in
    (relocate_clause (size val) r.begin c, grow (size val + r.end - r.begin) val)
