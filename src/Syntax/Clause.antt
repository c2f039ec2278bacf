-- ===== src/Syntax/Clause.antt =====
-- `AndClause` and `OrClause` of lazyparam_prover/syntax/clause.h. An `AndClause` is a conjunction
-- of atoms; an `OrClause` is a view of the conjunction of the negated atoms.
use tptp_benchmark_go.Prelude.{
  ℕ, zero, suc, ◌+◌, ◌≡◌, refl, ap, ◌∙◌, not, arith, Bool, true, false, Option, some, ◌>>=◌, ◌==◌,
  if◌then◌else◌, List, [], ◌∷◌, map, length, get_elem?,
}
use tptp_benchmark_go.Syntax.Range.{VarRange, no_vars, join}
use tptp_benchmark_go.Syntax.Atom
use tptp_benchmark_go.Syntax.Atom.{Atom, eq_atom}

-- `ptr` with `offset` pushed down to the atoms, and `id_offset`
pub record AndClause : Type 0 where
  pub stored : List Atom
  pub id_offset : ℕ

-- `make(a, atoms...)`, and `Builder` with all `set_atom` calls
abbrev pub make : List Atom → AndClause
make l = record { stored = l; id_offset = 0 }

unfoldable pub join_atoms : VarRange → List Atom → VarRange
join_atoms r [] = r
join_atoms r (a ∷ l) = join_atoms (join r (Atom.var_range a)) l

unfoldable pub var_range : AndClause → VarRange
unfolding join_atoms
var_range c = join_atoms no_vars c.stored

unfoldable pub atom_count : AndClause → ℕ
atom_count c = length c.stored

-- `atom(i)`: the stored atom with the id `id_offset + i`; `none` is a read past the end
unfoldable pub atom : AndClause → ℕ → Option Atom
atom c i = get_elem? c.stored i >>= λ a. some (Atom.set_id (c.id_offset + i) a)

unfoldable pub number_from : ℕ → List Atom → List Atom
number_from n [] = []
number_from n (a ∷ l) = Atom.set_id n a ∷ number_from (n + 1) l

-- all `atom(i)` in order
unfoldable pub atoms : AndClause → List Atom
unfolding number_from
atoms c = number_from c.id_offset c.stored

unfoldable pub shift : ℕ → AndClause → AndClause
shift d c = record c { stored = map (Atom.shift d) c.stored }

unfoldable pub set_id_offset : ℕ → AndClause → AndClause
set_id_offset n c = record c { id_offset = n }

-- `struct OrClause`
pub record OrClause : Type 0 where
  pub neg_and_clause : AndClause

-- `AndClause::neg()` and `OrClause::neg()`
unfoldable pub to_or : AndClause → OrClause
to_or c = record { neg_and_clause = c }

unfoldable pub to_and : OrClause → AndClause
to_and c = c.neg_and_clause

-- `OrClause::atom(i)`
unfoldable pub or_atom : OrClause → ℕ → Option Atom
or_atom c i = atom (to_and c) i >>= λ a. some (Atom.neg a)

unfoldable pub or_atom_count : OrClause → ℕ
or_atom_count c = atom_count (to_and c)

unfoldable pub or_shift : ℕ → OrClause → OrClause
or_shift d c = to_or (shift d (to_and c))

unfoldable pub or_set_id_offset : ℕ → OrClause → OrClause
or_set_id_offset n c = to_or (set_id_offset n (to_and c))

-- `OrClause::make(atoms...)`
unfoldable pub or_make : List Atom → OrClause
or_make l = to_or (make (map Atom.neg l))

-- `operator==`: the last atom first
unfoldable pub eq_atoms : List Atom → List Atom → Option Bool
eq_atoms [] [] = some true
eq_atoms [] (y ∷ ys) = some false
eq_atoms (x ∷ xs) [] = some false
eq_atoms (x ∷ xs) (y ∷ ys) = eq_atoms xs ys >>= λ b. if b then eq_atom x y else some false

unfoldable pub eq_clause : AndClause → AndClause → Option Bool
unfolding eq_atoms
eq_clause a b =
    if length a.stored == length b.stored then eq_atoms a.stored b.stored else some false

not_twice : (b : Bool) → not (not b) ≡ b
not_twice true = refl
not_twice false = refl

number_from-get :
    (n : ℕ) (l : List Atom) (i : ℕ)
    → get_elem? (number_from n l) i ≡ (get_elem? l i >>= λ a. some (Atom.set_id (n + i) a))
unfolding number_from
number_from-get n [] i = refl
number_from-get n (a ∷ l) zero = ap (λ k. some (Atom.set_id k a)) (omega arith)
number_from-get n (a ∷ l) (suc i) =
    number_from-get (n + 1) l i
    ∙ ap (λ k. get_elem? l i >>= λ a'. some (Atom.set_id k a')) (omega arith)

-- `atoms` lists exactly what `atom(i)` returns.
pub atom-atoms : (c : AndClause) (i : ℕ) → get_elem? (atoms c) i ≡ atom c i
unfolding atoms atom
atom-atoms c i = number_from-get c.id_offset c.stored i

neg_each :
    (l : List Atom) (i k : ℕ)
    → ((get_elem? (map Atom.neg l) i >>= λ a. some (Atom.set_id k a)) >>= λ a. some (Atom.neg a))
      ≡ (get_elem? l i >>= λ a. some (Atom.set_id k a))
unfolding Atom.set_id Atom.neg
neg_each [] i k = refl
neg_each (a ∷ l) zero k = ap (λ s. some (record a { sign = s; id = k })) (not_twice a.sign)
neg_each (a ∷ l) (suc i) k = neg_each l i k

-- The i-th atom of the `OrClause` made of some atoms is the i-th of these, numbered by its place,
-- although the clause stores their negations; past the end there is none.
pub or_atom-or_make :
    (l : List Atom) (i : ℕ)
    → or_atom (or_make l) i ≡ (get_elem? l i >>= λ a. some (Atom.set_id i a))
unfolding or_atom or_make atom to_and to_or
or_atom-or_make l i =
    neg_each l i (0 + i) ∙ ap (λ k. get_elem? l i >>= λ a. some (Atom.set_id k a)) (omega arith)
