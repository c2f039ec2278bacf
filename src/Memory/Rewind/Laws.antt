-- ===== src/Memory/Rewind/Laws.antt =====
-- Rewinding a `RewindArray` (lazyparam_prover/memory/array.h) after writes and growth.
use tptp_benchmark_go.Prelude.{
  ℕ, suc, ◌<◌, ◌≤◌, ◌≡◌, refl, ap, ◌∙◌, List, [], ◌∷◌, ◌++◌, Option, none, some, length, get_elem?,
  set, resize, All, arith, length-append, length-set, length-resize, resize_self, resize-resize,
  set-resize, set-set, set_self, All-mono, lt→ltb, le→not_ltb,
}
use tptp_benchmark_go.Memory.Rewind.{RewindArray, grow, put, save, undo, restore}

-- What a client does between a save and a restore: it writes a cell or enlarges the array.
pub data Edit (E : Type 0) : Type 0 where
  write : ℕ → E → Edit E
  enlarge : ℕ → Edit E

module _ {E : Type 0} where
  unfoldable pub run : List (Edit E) → RewindArray E → RewindArray E
  unfolding put grow
  run [] a = a
  run (write i e ∷ es) a = run es (put i e a)
  run (enlarge n ∷ es) a = run es (grow n a)

  -- The source's debug checks: a write goes to an unset cell in range, a resize only enlarges.
  unfoldable pub Legal : List (Edit E) → RewindArray E → Type 0
  unfolding put grow
  Legal [] a = Unit
  Legal (write i e ∷ es) a = (get_elem? a.cells i ≡ some none) × Legal es (put i e a)
  Legal (enlarge n ∷ es) a = (length a.cells ≤ n) × Legal es (grow n a)

  unset_all : List ℕ → List (Option E) → List (Option E)
  unset_all [] xs = xs
  unset_all (i ∷ ds) xs = unset_all ds (set xs i none)

  lt_of_get :
      (xs : List (Option E)) (i : ℕ) (m : Option E) → get_elem? xs i ≡ some m → i < length xs
  lt_of_get [] i m h = absurd (cc h)
  lt_of_get (x ∷ xs) ℕ.zero m h = omega arith
  lt_of_get (x ∷ xs) (suc i) m h = omega (arith, lt_of_get xs i m h)

  length-unset_all : (ds : List ℕ) (xs : List (Option E)) → length (unset_all ds xs) ≡ length xs
  unfolding unset_all
  length-unset_all [] xs = refl
  length-unset_all (i ∷ ds) xs = length-unset_all ds (set xs i none) ∙ length-set xs i none

  unset_all-resize :
      (n : ℕ) (ds : List ℕ) (xs : List (Option E))
      → All (λ i. i < length xs) ds
      → length xs ≤ n
      → unset_all ds (resize n none xs) ≡ resize n none (unset_all ds xs)
  unfolding unset_all
  unset_all-resize n [] xs h g = refl
  unset_all-resize n (i ∷ ds) xs h g =
      ap (unset_all ds) (set-resize n i none none xs h.0 g)
      ∙ unset_all-resize n ds (set xs i none)
          (All-mono _ _ (λ j p. omega (arith, length-set xs i none)) ds h.1)
          (omega (arith, length-set xs i none))

  -- `b` came from `a` by edits: its newer diffs are `ds`, and unsetting them gives `a` back.
  record Extends (a b : RewindArray E) : Type 0 where
    ds : List ℕ
    newer : b.diffs ≡ ds ++ a.diffs
    in_range : All (λ i. i < length b.cells) ds
    longer : length a.cells ≤ length b.cells
    back : resize (length a.cells) none (unset_all ds b.cells) ≡ a.cells

  Extends-refl : (a : RewindArray E) → Extends a a
  unfolding unset_all
  Extends-refl a = record {
    ds = [];
    newer = refl;
    in_range = tt;
    longer = omega arith;
    back = resize_self none a.cells;
  }

  Extends-put :
      {a b : RewindArray E} (i : ℕ) (e : E)
      → get_elem? b.cells i ≡ some none
      → Extends a b
      → Extends a (put i e b)
  unfolding put unset_all
  Extends-put {a} {b} i e free x = record {
    ds = i ∷ x.ds;
    newer = ap (λ l. i ∷ l) x.newer;
    in_range = (
      omega (arith, lt_of_get b.cells i none free, length-set b.cells i (some e)),
      All-mono _ _ (λ j p. omega (arith, length-set b.cells i (some e))) x.ds x.in_range,
    );
    longer = omega (arith, length-set b.cells i (some e), x.longer);
    back =
        ap (λ l. resize (length a.cells) none (unset_all x.ds l))
          (set-set b.cells i (some e) none ∙ set_self b.cells i none free)
        ∙ x.back;
  }

  Extends-grow :
      {a b : RewindArray E} (n : ℕ) → length b.cells ≤ n → Extends a b → Extends a (grow n b)
  unfolding grow
  Extends-grow {a} {b} n h x = record {
    ds = x.ds;
    newer = x.newer;
    in_range = All-mono _ _ (λ j p. omega (arith, length-resize n none b.cells)) x.ds x.in_range;
    longer = omega (arith, length-resize n none b.cells, x.longer);
    back =
        ap (resize (length a.cells) none) (unset_all-resize n x.ds b.cells x.in_range h)
        ∙ resize-resize (length a.cells) n none (unset_all x.ds b.cells) (omega (arith, x.longer))
        ∙ x.back;
  }

  Extends-run :
      {a : RewindArray E} (es : List (Edit E)) {b : RewindArray E}
      → Legal es b
      → Extends a b
      → Extends a (run es b)
  unfolding run Legal
  Extends-run [] ok x = x
  Extends-run (write i e ∷ es) ok x = Extends-run es ok.1 (Extends-put i e ok.0 x)
  Extends-run (enlarge n ∷ es) ok x = Extends-run es ok.1 (Extends-grow n ok.0 x)

  undo-append :
      (ds es : List ℕ) (xs : List (Option E))
      → undo (length es) xs (ds ++ es) ≡ record { cells = unset_all ds xs; diffs = es }
  unfolding undo unset_all
  undo-append [] [] xs = refl
  undo-append [] (e ∷ es) xs = rw (le→not_ltb (suc (length es)) (suc (length es)) (omega arith))
  undo-append (i ∷ ds) es xs =
      rw (lt→ltb (length es) (suc (length (ds ++ es))) (omega (arith, length-append ds es)))
        (undo-append ds es (set xs i none))

  restore-Extends : {a b : RewindArray E} → Extends a b → restore (save a) b ≡ a
  unfolding restore save grow
  restore-Extends {a} {b} x =
      rw (x.newer, undo-append x.ds a.diffs b.cells)
        (ap (λ l. record { cells = l; diffs = a.diffs }) x.back)

  -- After any legal writes and enlargements, `restore` with an earlier `save` gives back exactly
  -- the array of that time: its values, its length and its own list of diffs.
  pub restore-run :
      (a : RewindArray E) (es : List (Edit E)) → Legal es a → restore (save a) (run es a) ≡ a
  restore-run a es ok = restore-Extends (Extends-run es ok (Extends-refl a))
