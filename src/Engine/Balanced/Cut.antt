-- ===== src/Engine/Balanced/Cut.antt =====
-- What `save` of lazyparam_prover/engine/balanced.h drops in the mode with cut, and what it keeps.
use tptp_benchmark_go.Prelude.{
  ◌-◌, ◌≤◌, ◌≡◌, refl, ap, true, inl, inr, List, [], ◌∷◌, ◌++◌, All, Bool-cases, arith,
}
use tptp_benchmark_go.Engine.Cells
use tptp_benchmark_go.Engine.Cells.{Cells}
use tptp_benchmark_go.Engine.Balanced.{Cont, Save, Div, is_cut, cut_saves, save}

module _ {S R : Type 0} where
  -- The continuation of the save is no shorter than `c`, and ends in the cells of `c`.
  abbrev pub EndsIn : Cont S → Save S R → Type 0
  EndsIn c v =
      (Cells.size c ≤ Cells.size v.cont)
      × (Cells.pointer_equal c (Cells.drop (Cells.size v.cont - Cells.size c) v.cont) ≡ true)

  is_cut-EndsIn : (c : Cont S) (v : Save S R) → is_cut c v.cont ≡ true → EndsIn c v
  unfolding is_cut
  is_cut-EndsIn c v h = (ground arith, ground arith)

  EndsIn-is_cut : (c : Cont S) (v : Save S R) → EndsIn c v → is_cut c v.cont ≡ true
  unfolding is_cut
  EndsIn-is_cut c v (longer, same) = ground arith

  -- The saves that are kept start at the first one that does not end in `c`.
  abbrev pub StartsOutside : Cont S → List (Save S R) → Type 0
  StartsOutside c [] = Unit
  StartsOutside c (v ∷ vs) = ¬ EndsIn c v

  cut_saves-split :
      (c : Cont S) (vs : List (Save S R))
      → (cut : List (Save S R)) × (vs ≡ cut ++ cut_saves c vs)
        × All (EndsIn c) cut
        × StartsOutside c (cut_saves c vs)
  unfolding cut_saves
  cut_saves-split c [] = ([], refl, tt, tt)
  cut_saves-split c (v ∷ vs) = elim (Bool-cases (is_cut c v.cont)) [
    | inl h ↦
        let (cut, e, a, o) = cut_saves-split c vs in
        (v ∷ cut, rw h (ap (λ l. v ∷ l) e), (is_cut-EndsIn c v h, a), rw h o)
    | inr h ↦ ([], rw h, tt, rw h (λ x. absurd (cc (h, EndsIn-is_cut c v x))))
  ]

  -- With cut, `save` puts the new save on top of the old ones less some of the newest: these all
  -- have continuations that end in the new one, and the newest that is kept does not.
  pub save-cut :
      (take : S → R) (give : R → S → S) (c : Cont S) (st : S) (d : Div S R)
      → d.cut ≡ true
      → (cut kept : List (Save S R)) × (d.saves ≡ cut ++ kept)
        × ((save take give c st d).saves ≡ record { cont = c; ss = take st; next = d.next } ∷ kept)
        × All (EndsIn c) cut
        × StartsOutside c kept
  unfolding save
  save-cut take give c st d h =
      let (cut, e, a, o) = cut_saves-split c d.saves in (cut, cut_saves c d.saves, e, rw h, a, o)
