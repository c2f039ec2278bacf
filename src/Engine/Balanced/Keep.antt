-- ===== src/Engine/Balanced/Keep.antt =====
-- What a step of lazyparam_prover/engine/balanced.h does to the saved alternatives, without cut.
use mathlib.Core.List.{append_assoc}
use tptp_benchmark_go.Prelude.{
  ℕ, suc, ◌+◌, ◌≡◌, ◌<◌, ◌/◌, ◌⊎◌, refl, sym, ap, ap₂, ◌∙◌, Bool, true, false, not, ◌&&◌, some, ltb,
  leb, ◌==◌, inl, inr, List, [], ◌∷◌, ◌++◌, Bool-cases, length, map, arith, if◌then◌else◌,
}
use tptp_benchmark_go.Engine.Cells
use tptp_benchmark_go.Engine.Cells.{Cells, null, cell}
use tptp_benchmark_go.Engine.Task.{Task, Effects, stop, or_, and_, done, run}
use tptp_benchmark_go.Engine.Balanced.{
  Spec, check_min, spec_task, task_set, Cont, Save, Div, save, alloc, save_added, perform,
  step_task, first_attempt, second_attempt, step_set, dispatch, step_cont, step, budget,
  head_budget, add_size, sub_size, push_min, push_rest,
}

map-append : {A B : Type 0} (f : A → B) (xs ys : List A) → map f (xs ++ ys) ≡ map f xs ++ map f ys
map-append f [] ys = refl
map-append f (x ∷ xs) ys = ap (λ l. f x ∷ l) (map-append f xs ys)

-- The states in which a task calls the engine to save, the latest first.
unfoldable pub calls : {S : Type 0} → Effects S → List S
calls (stop st) = []
calls (or_ depth st f es) = calls es ++ (st ∷ [])
calls (and_ f es) = calls es
calls (done depth st es) = calls es ++ (st ∷ [])

append-nil : {A : Type 0} (xs : List A) → xs ++ [] ≡ xs
append-nil [] = refl
append-nil (x ∷ xs) = ap (λ l. x ∷ l) (append-nil xs)

module _ {S R : Type 0} (take : S → R) (give : R → S → S) where
  -- The mode is the same, and the saves are the old ones with new ones on top, which keep the
  -- states `l`.
  pub record Grows (l : List S) (d d' : Div S R) : Type 0 where
    pub same_mode : d'.cut ≡ d.cut
    pub new : List (Save S R)
    pub kept : d'.saves ≡ new ++ d.saves
    pub states : map (λ (v : Save S R). v.ss) new ≡ map take l

  Grows-refl : (d : Div S R) → Grows [] d d
  Grows-refl d = record { same_mode = refl; new = []; kept = refl; states = refl }

  Grows-trans : {a b c : Div S R} {l m : List S} → Grows l a b → Grows m b c → Grows (m ++ l) a c
  Grows-trans {a} {l = l} {m} g h = record {
    same_mode = h.same_mode ∙ g.same_mode;
    new = h.new ++ g.new;
    kept = h.kept ∙ ap (λ l. h.new ++ l) g.kept ∙ sym (append_assoc h.new g.new a.saves);
    states =
        map-append (λ (v : Save S R). v.ss) h.new g.new
        ∙ ap₂ (◌++◌) h.states g.states
        ∙ sym (map-append take m l);
  }

  -- a step that changes the addresses only
  Grows-after : {a b c : Div S R} {l : List S} → Grows [] a b → Grows l b c → Grows l a c
  Grows-after {a} {l = l} g h = record {
    same_mode = h.same_mode ∙ g.same_mode;
    new = h.new ++ g.new;
    kept = h.kept ∙ ap (λ l. h.new ++ l) g.kept ∙ sym (append_assoc h.new g.new a.saves);
    states =
        map-append (λ (v : Save S R). v.ss) h.new g.new
        ∙ ap₂ (◌++◌) h.states g.states
        ∙ append-nil (map take l);
  }

  save-Grows :
      (c : Cont S) (st : S) (d : Div S R)
      → d.cut ≡ false
      → Grows (st ∷ []) d (save take give c st d)
  unfolding save
  save-Grows c st d h = record {
    same_mode = refl;
    new = record { cont = c; ss = take st; next = d.next } ∷ [];
    kept = rw h refl;
    states = refl;
  }

  alloc-Grows : (x : Spec S) (c : Cont S) (d : Div S R) → Grows [] d (alloc x c d).1
  unfolding alloc
  alloc-Grows x c d = record { same_mode = refl; new = []; kept = refl; states = refl }

  save_added-Grows :
      (x : Spec S) (c : Cont S) (st : S) (d : Div S R)
      → d.cut ≡ false
      → Grows (st ∷ []) d (save_added take give x c st d)
  unfolding save_added
  save_added-Grows x c st d h =
      let a = alloc-Grows x c d in
      Grows-after a (save-Grows (alloc x c d).0 st (alloc x c d).1 (a.same_mode ∙ h))

  perform-Grows :
      (limit : ℕ) (c : Cont S) (new : List (Task S)) (es : Effects S) (d : Div S R)
      → d.cut ≡ false
      → Grows (calls es) d (perform take give limit c new es d)
  unfolding perform calls
  perform-Grows limit c new (stop st) d h = Grows-refl d
  perform-Grows limit c new (or_ depth st f es) d h =
      let g = save_added-Grows (spec_task f 0 limit) c st d h in
      Grows-trans g (perform-Grows limit c new es _ (g.same_mode ∙ h))
  perform-Grows limit c new (and_ f es) d h = perform-Grows limit c (f ∷ new) es d h
  perform-Grows limit c new (done depth st es) d h =
      let g = save_added-Grows (task_set new limit) c st d h in
      Grows-trans g (perform-Grows limit c new es _ (g.same_mode ∙ h))

  push_min-Grows : (now low : ℕ) (c : Cont S) (d : Div S R) → Grows [] d (push_min now low c d).1
  unfolding push_min
  push_min-Grows now low c d = elim (Bool-cases (ltb 0 low)) [
    | inl e ↦ rw e (alloc-Grows (check_min (add_size now low)) c d)
    | inr e ↦ rw e (Grows-refl d)
  ]

  push_rest-Grows :
      (fs : List (Task S)) (high : ℕ) (c : Cont S) (d : Div S R)
      → Grows [] d (push_rest fs high c d).1
  unfolding push_rest
  push_rest-Grows fs high c d = elim (Bool-cases (length fs == 0)) [
    | inl e ↦ rw e (Grows-refl d)
    | inr e ↦ rw e (alloc-Grows (task_set fs high) c d)
  ]

  module _ (used : S → ℕ) where
    -- The states in which the topmost part of a continuation saves: a task that fits the limit in
    -- those of its calls; a set of subgoals once, or twice if it has several subgoals and any room.
    unfoldable pub offers : Spec S → S → List S
    unfolding calls run
    offers (check_min low) st = if leb low (used st) then st ∷ [] else []
    offers (spec_task f low high) st =
        if leb (add_size (used st) low) high then calls (run f high st) else []
    offers (task_set [] high) st = st ∷ []
    offers (task_set (f ∷ []) high) st = st ∷ []
    offers (task_set (f ∷ g ∷ fs) high) st =
        if sub_size high (used st) == 0 then st ∷ [] else st ∷ st ∷ []

    unfoldable pub offers_of : Cont S → S → List S
    unfolding offers
    offers_of null st = []
    offers_of (cell a x c) st = offers x st

    step_task-Grows :
        (f : Task S) (low high : ℕ) (c : Cont S) (st : S) (d : Div S R)
        → d.cut ≡ false
        → Grows (offers (spec_task f low high) st) d (step_task take give used f low high c st d).1
    unfolding step_task offers
    step_task-Grows f low high c st d h = elim (Bool-cases (ltb high (add_size (used st) low))) [
      | inl e ↦
          let e' : leb (add_size (used st) low) high ≡ false = ground arith in
          rw (e, e') (Grows-refl d)
      | inr e ↦
          let g = push_min-Grows (used st) low c d in
          let p = push_min (used st) low c d in
          let e' : leb (add_size (used st) low) high ≡ true = ground arith in
          rw (e, e')
            (Grows-after g (perform-Grows high p.0 [] (run f high st) p.1 (g.same_mode ∙ h)))
    ]

    first_attempt-Grows :
        (f : Task S) (fs : List (Task S)) (high : ℕ) (c : Cont S) (st : S) (d : Div S R)
        → d.cut ≡ false
        → Grows (st ∷ []) d (first_attempt take give used f fs high c st d)
    unfolding first_attempt
    first_attempt-Grows f fs high c st d h =
        let g = push_rest-Grows fs high c d in
        let p = push_rest fs high c d in
        Grows-after g (save_added-Grows _ p.0 st p.1 (g.same_mode ∙ h))

    second_attempt-Grows :
        (f : Task S) (fs : List (Task S)) (high : ℕ) (c : Cont S) (st : S) (d : Div S R)
        → d.cut ≡ false
        → Grows (st ∷ []) d (second_attempt take give used f fs high c st d)
    unfolding second_attempt
    second_attempt-Grows f fs high c st d h =
        let x = spec_task f (head_budget high (used st) (suc (length fs)) + 1) high in
        let g = alloc-Grows x c d in
        Grows-after g (save_added-Grows _ (alloc x c d).0 st (alloc x c d).1 (g.same_mode ∙ h))

    div_small : (b k : ℕ) → (b ≡ 0) ⊎ (b / suc (suc k) < b)
    div_small b k = grind arith

    room_left :
        (high now k : ℕ)
        → ltb (head_budget high now (suc (suc k))) (budget high now) ≡ not (sub_size high now == 0)
    unfolding head_budget budget
    room_left high now k = ground (arith, div_small (sub_size high now) k)

    step_set-Grows :
        (fs : List (Task S)) (high : ℕ) (c : Cont S) (st : S) (d : Div S R)
        → d.cut ≡ false
        → Grows (offers (task_set fs high) st) d (step_set take give used fs high c st d)
    unfolding step_set offers
    step_set-Grows [] high c st d h = save-Grows c st d h
    step_set-Grows (f ∷ []) high c st d h = first_attempt-Grows f [] high c st d h
    step_set-Grows (f ∷ g ∷ fs) high c st d h =
        let one = first_attempt-Grows f (g ∷ fs) high c st d h in
        let both =
          not (length (g ∷ fs) == 0)
          && ltb (head_budget high (used st) (suc (suc (length fs)))) (budget high (used st)) in
        let more : (length (g ∷ fs) == 0) ≡ false = ground arith in
        let room : both ≡ not (sub_size high (used st) == 0) =
          rw more (room_left high (used st) (length fs)) in
        elim (Bool-cases (sub_size high (used st) == 0)) [
          | inl e ↦ rw (room ∙ ap not e, e) one
          | inr e ↦
              rw (room ∙ ap not e, e)
                (Grows-trans one (
                  second_attempt-Grows f (g ∷ fs) high c st
                    (first_attempt take give used f (g ∷ fs) high c st d) (one.same_mode ∙ h)))
        ]

    dispatch-Grows :
        (x : Spec S) (c : Cont S) (st : S) (d : Div S R)
        → d.cut ≡ false
        → Grows (offers x st) d (dispatch take give used x c st d).1
    unfolding dispatch offers
    dispatch-Grows (check_min low) c st d h = elim (Bool-cases (ltb (used st) low)) [
      | inl e ↦ let e' : leb low (used st) ≡ false = ground arith in rw (e, e') (Grows-refl d)
      | inr e ↦ let e' : leb low (used st) ≡ true = ground arith in rw (e, e') (save-Grows c st d h)
    ]
    dispatch-Grows (spec_task f low high) c st d h = step_task-Grows f low high c st d h
    dispatch-Grows (task_set fs high) c st d h = step_set-Grows fs high c st d h

    step_cont-Grows :
        (c : Cont S) (st : S) (d : Div S R)
        → d.cut ≡ false
        → Grows (offers_of c st) d (step_cont take give used c st d).2
          × ((step_cont take give used c st d).0 ≡ Cells.is_empty c)
    unfolding step_cont offers_of Cells.is_empty
    step_cont-Grows null st d h = (Grows-refl d, refl)
    step_cont-Grows (cell a x c) st d h = (dispatch-Grows x c st d h, refl)

    -- Without cut, a step takes the newest save off and leaves all other saves as they were, below
    -- the new ones: no alternative is lost. It succeeds exactly if the continuation of that save is
    -- empty, and the new saves keep, in their order, the states that its topmost part offers when
    -- it is run in the restored search state.
    pub step_keeps :
        (v : Save S R) (vs : List (Save S R)) (st : S) (d : Div S R)
        → d.cut ≡ false
        → d.saves ≡ v ∷ vs
        → (st' : S) × (d' : Div S R) × (new : List (Save S R)) × (step take give used st d
            ≡ some (Cells.is_empty v.cont, st', d'))
          × (d'.saves ≡ new ++ vs)
          × (map (λ (w : Save S R). w.ss) new ≡ map take (offers_of v.cont (give v.ss st)))
          × (d'.cut ≡ false)
    unfolding step
    step_keeps v vs st d h e =
        let e0 = record d { next = v.next; saves = vs; steps = d.steps + 1 } in
        let (g, same) = step_cont-Grows v.cont (give v.ss st) e0 h in
        let r = step_cont take give used v.cont (give v.ss st) e0 in
        (
          r.1,
          r.2,
          g.new,
          rw e (ap (λ (b : Bool). some (b, r.1, r.2)) same),
          g.kept,
          g.states,
          g.same_mode ∙ h,
        )
