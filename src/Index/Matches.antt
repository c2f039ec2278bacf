-- ===== src/Index/Matches.antt =====
-- The sets of unifiable atoms of `ClauseIndex` (lazyparam_prover/index.h), and the filters over
-- them. `none` is fuel of unification that ran out, or a read past the end.
use tptp_benchmark_go.Prelude.{
  ℕ, ◌+◌, ◌-◌, ◌%◌, Bool, false, Option, none, some, ◌>>=◌, ◌==◌, ltb, if◌then◌else◌, List, [], ◌∷◌,
  ◌++◌, get_or, get_elem?, set, resize, length, replicate,
}
use tptp_benchmark_go.Syntax.Atom.{Atom, same_sign}
use tptp_benchmark_go.Syntax.Clause.{atom, atoms}
use tptp_benchmark_go.Derived.{DerAndClause, derived}
use tptp_benchmark_go.Unify.{Valuation, mgu_atom}
use tptp_benchmark_go.Derived.Allocate.{allocate_clause}
use tptp_benchmark_go.Index.{AtomClauseId, ClauseIndex, Filter, atom_hash, flip}

abbrev pub hash_of : Atom → ℕ
hash_of a = atom_hash a.pred a.sign

-- `h | 1`
unfoldable pub with_last_bit : ℕ → ℕ
with_last_bit h = if h % 2 == 0 then h + 1 else h

-- `if((h|1)>=preindex.size()) preindex.resize((h|1)+1); preindex[h].push_back(p);`
unfoldable pub push_place : ℕ → AtomClauseId → List (List AtomClauseId) → List (List AtomClauseId)
unfolding with_last_bit
push_place h p sets =
    let top = with_last_bit h in
    let wide = if ltb top (length sets) then sets else resize (top + 1) [] sets in
    set wide h (get_or wide h [] ++ (p ∷ []))

-- the loop over the atoms of the i-th clause, from the j-th on, and over the clauses
unfoldable pub preindex_atoms :
    ℕ → ℕ → List Atom → List (List AtomClauseId) → List (List AtomClauseId)
unfolding push_place
preindex_atoms i j [] sets = sets
preindex_atoms i j (a ∷ l) sets =
    preindex_atoms i (j + 1) l (push_place (hash_of a) (record { atom_id = j; clause_id = i }) sets)

unfoldable pub preindex_clauses :
    ℕ → List DerAndClause → List (List AtomClauseId) → List (List AtomClauseId)
unfolding preindex_atoms
preindex_clauses i [] sets = sets
preindex_clauses i (c ∷ cs) sets =
    preindex_clauses (i + 1) cs (preindex_atoms i 0 (atoms (derived c)) sets)

-- `sets` and `map`
pub record Matches : Type 0 where
  pub sets : List (List AtomClauseId)
  pub map : List ℕ

module _ (n : ℕ) (clauses : List DerAndClause) where
  -- whether the atom `a` of an allocated clause unifies with the atom at the place `x`
  unfoldable pub unifiable : Valuation → Atom → AtomClauseId → Option Bool
  unifiable val a x = get_elem? clauses x.clause_id >>= λ c.
      let (d, val') = allocate_clause val c in
      atom (derived d) x.atom_id >>= λ b.
      if same_sign a.sign b.sign then some false else (mgu_atom n val' a b >>= λ r. some r.0)

  -- `for(auto x : preindex[h^1])`
  unfoldable pub matching_places : Valuation → Atom → List AtomClauseId → Option (List AtomClauseId)
  unfolding unifiable
  matching_places val a [] = some []
  matching_places val a (x ∷ l) =
      unifiable val a x >>= λ b. matching_places val a l >>= λ xs. some (if b then x ∷ xs else xs)

  -- one atom: the set of the places with the opposite hash if it is large, or else a new one
  unfoldable pub add_atom : Valuation → Atom → Matches → Option Matches
  unfolding matching_places
  add_atom val a m =
      let opposite = get_or m.sets (flip (hash_of a)) [] in
      if ltb 100 (length opposite)
      then some (record m { map = set m.map a.id (flip (hash_of a)) })
      else (matching_places val a opposite >>= λ l.
          some (record { sets = m.sets ++ (l ∷ []); map = set m.map a.id (length m.sets) }))

  unfoldable pub add_atoms : Valuation → List Atom → Matches → Option Matches
  unfolding add_atom
  add_atoms val [] m = some m
  add_atoms val (a ∷ l) m = add_atom val a m >>= add_atoms val l

  -- for each clause the valuation is emptied and the clause allocated
  unfoldable pub add_clauses : List DerAndClause → Matches → Option Matches
  unfolding add_atoms
  add_clauses [] m = some m
  add_clauses (c ∷ cs) m =
      let (d, val) = allocate_clause (record { cells = []; diffs = [] }) c in
      add_atoms val (atoms (derived d)) m >>= add_clauses cs

-- the end of the constructor, after `build_clauses`, for `count` atoms
unfoldable pub build_matches : ℕ → ClauseIndex → ℕ → Option Matches
unfolding preindex_clauses add_clauses
build_matches n index count =
    add_clauses n index.and_clauses index.and_clauses
      (record { sets = preindex_clauses 0 index.and_clauses []; map = replicate count 0 })

-- `get_matches(atom, cost_limit)`; `none` is the debug build's stop before the first starting
-- clause, or an index out of range
unfoldable pub get_matches : Matches → ℕ → Atom → Option ℕ → Option Filter
get_matches m next_id a limit =
    if next_id == 0
    then none
    else (get_elem? m.map a.id >>= λ k. get_elem? m.sets k >>= λ l.
        some (record { cost_limit = limit; rest = l; starting_clause_id = next_id - 1 }))

-- `get_matches(pred, sign, cost_limit)`
unfoldable pub get_hash_matches : Matches → ℕ → ℕ → Bool → ℕ → Option Filter
get_hash_matches m next_id pred sign limit =
    if next_id == 0
    then none
    else (get_elem? m.sets (atom_hash pred sign) >>= λ l.
        some (record { cost_limit = some limit; rest = l; starting_clause_id = next_id - 1 }))
