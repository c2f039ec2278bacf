-- ===== src/Memory/Reset/Laws.antt =====
-- A reset of a `ResetArray` (lazyparam_prover/memory/array.h) undoes every write.

use native.Mathlib.Decide.{ℕ_discrete}
use tptp_benchmark_go.Prelude.{
  ℕ, ◌≡◌, refl, ap, ◌∙◌, List, [], ◌∷◌, ◌++◌, replicate, set, set-set, set_comm, set-replicate,
}
use tptp_benchmark_go.Memory.Reset.{ResetArray, put, wipe, reset}

module _ {E : Type 0} where
  -- writes `(i, e)`, oldest first
  unfoldable pub write_all : List (ℕ × E) → ResetArray E → ResetArray E
  unfolding put
  write_all [] a = a
  write_all ((i, e) ∷ ws) a = write_all ws (put i e a)

  abbrev pub clean : ℕ → E → ResetArray E
  clean n e = record { cells = replicate n e; dirty = [] }

  -- A cell that is wiped in the end does not remember what was written to it.
  wipe-set :
      (e v : E) (i : ℕ) (ds : List ℕ) (xs : List E)
      → set (wipe e ds (set xs i v)) i e ≡ set (wipe e ds xs) i e
  unfolding wipe
  wipe-set e v i [] xs = set-set xs i v e
  wipe-set e v i (j ∷ ds) xs = elim (ℕ_discrete i j) [
    | yes p ↦ rw p (ap (λ l. set (wipe e ds l) j e) (set-set xs j v e))
    | no p ↦
        ap (λ l. set (wipe e ds l) i e) (set_comm xs i j v e p) ∙ wipe-set e v i ds (set xs j e)
  ]

  wipe-append :
      (e : E) (ds es : List ℕ) (xs : List E) → wipe e (ds ++ es) xs ≡ wipe e es (wipe e ds xs)
  unfolding wipe
  wipe-append e [] es xs = refl
  wipe-append e (i ∷ ds) es xs = wipe-append e ds es (set xs i e)

  -- Wiping gives a clean array: kept by every write.
  write_all-wiped :
      (n : ℕ) (e : E) (ws : List (ℕ × E)) (a : ResetArray E)
      → wipe e a.dirty a.cells ≡ replicate n e
      → wipe e (write_all ws a).dirty (write_all ws a).cells ≡ replicate n e
  unfolding write_all wipe
  write_all-wiped n e [] a h = h
  write_all-wiped n e ((i, v) ∷ ws) a h = write_all-wiped n e ws (put i v a) (
      wipe-append e a.dirty (i ∷ []) (set a.cells i v)
      ∙ wipe-set e v i a.dirty a.cells
      ∙ ap (λ l. set l i e) h
      ∙ set-replicate n i e)

  -- On an array that holds `e` everywhere, any writes followed by `reset(e)` leave the array as
  -- it was, with nothing dirty.
  pub reset-write_all :
      (n : ℕ) (e : E) (ws : List (ℕ × E)) → reset e (write_all ws (clean n e)) ≡ clean n e
  unfolding reset wipe
  reset-write_all n e ws =
      ap (λ l. record { cells = l; dirty = [] }) (write_all-wiped n e ws (clean n e) refl)
