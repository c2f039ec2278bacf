-- ===== src/Index/Numbers.antt =====
-- The ids of the atoms of all clauses (the constructor of `ClauseIndex` in lazyparam_prover/index.h).
use tptp_benchmark_go.Prelude.{
  ℕ, zero, suc, ◌+◌, ◌<◌, ◌≡◌, refl, sym, ap, ◌∙◌, arith, some, List, [], ◌∷◌, length, get_elem?,
  some_eq, map, subst,
}
use tptp_benchmark_go.Derived.{DerAndClause, derived, set_id_offset}
use tptp_benchmark_go.Syntax.Atom
use tptp_benchmark_go.Syntax.Atom.{Atom}
use tptp_benchmark_go.Syntax.Clause
use tptp_benchmark_go.Syntax.Clause.{atoms, number_from}
use tptp_benchmark_go.Index.{number_clauses, number_clauses}

-- `n` is the end of the first clause's ids, which begin where those of the next clause end, and
-- so on down to 0.
unfoldable pub Numbered : ℕ → List DerAndClause → Type 0
Numbered n [] = n ≡ 0
Numbered n (d ∷ ds) = (n ≡ d.id_offset + length (derived d).stored) × Numbered d.id_offset ds

number_clauses-Numbered :
    (cs : List DerAndClause) → Numbered (number_clauses cs).1 (number_clauses cs).0
unfolding Numbered number_clauses set_id_offset derived Clause.set_id_offset
number_clauses-Numbered [] = refl
number_clauses-Numbered (c ∷ cs) = (refl, number_clauses-Numbered cs)

-- the number of all atoms
unfoldable pub count_atoms : List DerAndClause → ℕ
count_atoms [] = 0
count_atoms (c ∷ cs) = count_atoms cs + length (derived c).stored

id-number_from :
    (k i : ℕ) (l : List Atom) (a : Atom)
    → get_elem? (number_from k l) i ≡ some a
    → (a.id ≡ k + i) × (i < length l)
unfolding number_from Atom.set_id
id-number_from k i [] a e = absurd (cc e)
id-number_from k zero (x ∷ l) a e =
    let same = ap (λ (a : Atom). a.id) (some_eq e) in (omega (arith, same), omega arith)
id-number_from k (suc i) (x ∷ l) a e =
    let (same, p) = id-number_from (k + 1) i l a e in (omega (arith, same), omega arith)

-- The atom at place `i` of the clause at place `k` has the id `n`.
pub record HasId (cs : List DerAndClause) (k i n : ℕ) : Type 0 where
  pub clause : DerAndClause
  pub at : get_elem? cs k ≡ some clause
  pub atom : Atom
  pub there : get_elem? (atoms (derived clause)) i ≡ some atom
  pub id : atom.id ≡ n

atom_id :
    (c : DerAndClause) (i : ℕ) (a : Atom)
    → get_elem? (atoms (derived c)) i ≡ some a
    → (a.id ≡ c.id_offset + i) × (i < length (derived c).stored)
unfolding atoms derived Clause.set_id_offset
atom_id c i a e = id-number_from c.id_offset i (derived c).stored a e

first_id :
    (c : DerAndClause) (cs : List DerAndClause) (i m : ℕ)
    → HasId (c ∷ cs) 0 i m
    → (m ≡ c.id_offset + i) × (i < length (derived c).stored)
first_id c cs i m x =
    let same : c ≡ x.clause = some_eq x.at in
    let (is, p) =
      atom_id c i x.atom
        (ap (λ (d : DerAndClause). get_elem? (atoms (derived d)) i) same ∙ x.there) in
    (sym x.id ∙ is, p)

later_id :
    (c : DerAndClause) (cs : List DerAndClause) (k i m : ℕ)
    → HasId (c ∷ cs) (suc k) i m
    → HasId cs k i m
later_id c cs k i m x = record {
  clause = x.clause;
  at = x.at;
  atom = x.atom;
  there = x.there;
  id = x.id;
}

-- the ids of a clause are below the end of the first one's
id_below : (n : ℕ) (cs : List DerAndClause) (k i m : ℕ) → Numbered n cs → HasId cs k i m → m < n
unfolding Numbered
id_below n [] k i m h x = absurd (cc x.at)
id_below n (c ∷ cs) zero i m h x = let (is, p) = first_id c cs i m x in omega (arith, h.0, is, p)
id_below n (c ∷ cs) (suc k) i m h x =
    let below = id_below c.id_offset cs k i m h.1 (later_id c cs k i m x) in
    omega (arith, h.0, below)

id_once :
    (n : ℕ) (cs : List DerAndClause) (k l i j m : ℕ)
    → Numbered n cs
    → HasId cs k i m
    → HasId cs l j m
    → (k ≡ l) × (i ≡ j)
unfolding Numbered
id_once n [] k l i j m h x y = absurd (cc x.at)
id_once n (c ∷ cs) zero zero i j m h x y =
    let (is, p) = first_id c cs i m x in
    let (is', p') = first_id c cs j m y in (refl, omega (arith, is, is'))
id_once n (c ∷ cs) zero (suc l) i j m h x y =
    let (is, p) = first_id c cs i m x in
    absurd (omega (arith, is, id_below c.id_offset cs l j m h.1 (later_id c cs l j m y)))
id_once n (c ∷ cs) (suc k) zero i j m h x y =
    let (is, p) = first_id c cs j m y in
    absurd (omega (arith, is, id_below c.id_offset cs k i m h.1 (later_id c cs k i m x)))
id_once n (c ∷ cs) (suc k) (suc l) i j m h x y =
    let (same, same') =
      id_once c.id_offset cs k l i j m h.1 (later_id c cs k i m x) (later_id c cs l j m y) in
    (ap suc same, same')

unnumbered :
    (cs : List DerAndClause)
    → map (set_id_offset 0) (number_clauses cs).0 ≡ map (set_id_offset 0) cs
unfolding number_clauses set_id_offset
unnumbered [] = refl
unnumbered (c ∷ cs) = ap (λ l. record c { id_offset = 0 } ∷ l) (unnumbered cs)

counted : (cs : List DerAndClause) → (number_clauses cs).1 ≡ count_atoms cs
unfolding number_clauses count_atoms
counted [] = refl
counted (c ∷ cs) = ap (λ n. n + length (derived c).stored) (counted cs)

-- The constructor changes nothing of the clauses but the offsets of their atoms' ids. Then each id
-- is below the number of all atoms, which is the size of `map`, and no two atoms of all
-- clauses have the same id.
pub number_clauses-distinct :
    (cs : List DerAndClause)
    → let ds = (number_clauses cs).0 in
      (map (set_id_offset 0) ds ≡ map (set_id_offset 0) cs)
      × ((number_clauses cs).1 ≡ count_atoms cs)
      × ((k i m : ℕ) → HasId ds k i m → m < count_atoms cs)
      × ((k l i j m : ℕ) → HasId ds k i m → HasId ds l j m → (k ≡ l) × (i ≡ j))
number_clauses-distinct cs =
    let (ds, n) = number_clauses cs in
    let numbered = number_clauses-Numbered cs in
    (
      unnumbered cs,
      counted cs,
      λ k i m x. subst (λ n. m < n) (counted cs) (id_below n ds k i m numbered x),
      λ k l i j m x y. id_once n ds k l i j m numbered x y,
    )
