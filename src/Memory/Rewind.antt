-- ===== src/Memory/Rewind.antt =====
-- `memory::RewindArray` of lazyparam_prover/memory/array.h: an array of optional values that
-- remembers which cells were set, so that it can be rewound to an earlier state.
pub mod Laws
use tptp_benchmark_go.Prelude.{
  ℕ, suc, List, [], ◌∷◌, Option, none, some, ltb, if◌then◌else◌, length, get_elem?, set, resize,
}

-- `data` and `diffs` of the source; the back of the vector `diffs` is the head of the list.
pub record RewindArray (E : Type 0) : Type 0 where
  pub cells : List (Option E)
  pub diffs : List ℕ

-- `RewindArray::Save`
pub record Save : Type 0 where
  pub data_size : ℕ
  pub diffs_size : ℕ

module _ {E : Type 0} where
  -- `operator[]`; out of range, where a debug build stops, nothing is read
  unfoldable pub get : RewindArray E → ℕ → Option E
  get a i = elim (get_elem? a.cells i) [ none ↦ none | some m ↦ m ]

  unfoldable pub size : RewindArray E → ℕ
  size a = length a.cells

  unfoldable pub grow : ℕ → RewindArray E → RewindArray E
  grow n a = record a { cells = resize n none a.cells }

  -- `set(i, e)`
  unfoldable pub put : ℕ → E → RewindArray E → RewindArray E
  put i e a = record { cells = set a.cells i (some e); diffs = i ∷ a.diffs }

  unfoldable pub save : RewindArray E → Save
  save a = record { data_size = length a.cells; diffs_size = length a.diffs }

  -- `while (diffs.size() > k) { data[diffs.back()] = Maybe<E>(); diffs.pop_back(); }`
  unfoldable pub undo : ℕ → List (Option E) → List ℕ → RewindArray E
  undo k cells [] = record { cells = cells; diffs = [] }
  undo k cells (i ∷ ds) =
      if ltb k (suc (length ds))
      then undo k (set cells i none) ds
      else record { cells = cells; diffs = i ∷ ds }

  unfoldable pub restore : Save → RewindArray E → RewindArray E
  unfolding undo grow
  restore s a = grow s.data_size (undo s.diffs_size a.cells a.diffs)
