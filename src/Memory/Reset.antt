-- ===== src/Memory/Reset.antt =====
-- `memory::ResetArray` of lazyparam_prover/memory/array.h: an array that remembers which cells
-- were written since the last reset, so that a reset costs no more than the writes did.
pub mod Laws
use tptp_benchmark_go.Prelude.{ℕ, List, [], ◌∷◌, ◌++◌, length, get_or, set, resize}

-- `data` and `dirty` of the source, oldest write first.
pub record ResetArray (E : Type 0) : Type 0 where
  pub cells : List E
  pub dirty : List ℕ

module _ {E : Type 0} where
  -- `resize(n, e)`; a debug build stops where `dirty` is not empty
  unfoldable pub resize_to : ℕ → E → ResetArray E → ResetArray E
  resize_to n e a = record a { cells = resize n e a.cells }

  -- `set(i, e)`
  unfoldable pub put : ℕ → E → ResetArray E → ResetArray E
  put i e a = record { cells = set a.cells i e; dirty = a.dirty ++ (i ∷ []) }

  -- `operator[]`, with the value for an index out of range, where a debug build stops
  unfoldable pub get : E → ResetArray E → ℕ → E
  get d a i = get_or a.cells i d

  -- `for (auto i : dirty) data[i] = e;`
  unfoldable pub wipe : E → List ℕ → List E → List E
  wipe e [] xs = xs
  wipe e (i ∷ ds) xs = wipe e ds (set xs i e)

  unfoldable pub reset : E → ResetArray E → ResetArray E
  unfolding wipe
  reset e a = record { cells = wipe e a.dirty a.cells; dirty = [] }
