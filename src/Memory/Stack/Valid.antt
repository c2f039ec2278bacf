-- ===== src/Memory/Stack/Valid.antt =====
-- The allocator of lazyparam_prover/memory/stack.h hands out memory of its own blocks only, and
-- never the same byte twice.
use native.Mathlib.Decide.{dec_lt}
use tptp_benchmark_go.Prelude.{
  ℕ, zero, suc, ◌+◌, ◌<◌, ◌≤◌, ◌≡◌, refl, ap, ◌∙◌, ◌⊎◌, inl, inr, List, [], ◌∷◌, ◌++◌, length,
  get_or, arith, length-append, All, ltb, Bool-cases, not_ltb→le, ◌==◌,
}
use tptp_benchmark_go.Memory.Stack.{
  Stack, Save, ensure_block, next_block, bump, alloc_bytes, alloc_all,
}

-- the addresses of the first `n` blocks
abbrev pub bases : (ℕ → ℕ) → ℕ → List ℕ
bases fresh zero = []
bases fresh (suc n) = bases fresh n ++ (fresh n ∷ [])

pub length-bases : (fresh : ℕ → ℕ) (n : ℕ) → length (bases fresh n) ≡ n
length-bases fresh zero = refl
length-bases fresh (suc n) =
    omega (arith, length-append (bases fresh n) (fresh n ∷ []), length-bases fresh n)

get_or-append_left :
    (xs ys : List ℕ) (i d : ℕ) → i < length xs → get_or (xs ++ ys) i d ≡ get_or xs i d
get_or-append_left [] ys i d h = absurd (omega arith)
get_or-append_left (x ∷ xs) ys zero d h = refl
get_or-append_left (x ∷ xs) ys (suc i) d h = get_or-append_left xs ys i d (omega arith)

get_or-append_last : (xs : List ℕ) (x d : ℕ) → get_or (xs ++ (x ∷ [])) (length xs) d ≡ x
get_or-append_last [] x d = refl
get_or-append_last (y ∷ xs) x d = get_or-append_last xs x d

pub get_or-bases : (fresh : ℕ → ℕ) (n i : ℕ) → i < n → get_or (bases fresh n) i 0 ≡ fresh i
get_or-bases fresh zero i h = absurd (omega arith)
get_or-bases fresh (suc n) i h = elim (dec_lt i n) [
  | yes p ↦
      get_or-append_left (bases fresh n) (fresh n ∷ []) i 0 (omega (arith, length-bases fresh n))
      ∙ get_or-bases fresh n i p
  | no p ↦
      let e : i ≡ length (bases fresh n) = omega (arith, length-bases fresh n) in
      let f : n ≡ i = omega arith in
      rw (e, get_or-append_last (bases fresh n) (fresh n) 0) (ap fresh (f ∙ e))
]

module _ (block : ℕ) (fresh : ℕ → ℕ) where
  -- The blocks are those the runtime gave, `begin` and `end` bound the free part of the last used
  -- one, and before the first allocation all are null.
  pub record IsValid (s : Stack) : Type 0 where
    pub count : ℕ
    pub known : s.blocks ≡ bases fresh count
    pub used : s.state.blocks_used ≤ count
    pub current :
        ((s.state.blocks_used ≡ 0) × (s.state.begin ≡ 0) × (s.state.end ≡ 0))
        ⊎ ((k : ℕ) × (s.state.blocks_used ≡ suc k)
            × (fresh k ≤ s.state.begin)
            × (s.state.begin ≤ s.state.end)
            × (s.state.end ≡ fresh k + block))

  -- The region `[q, q + m)` lies in one block, past everything that `v` counts as handed out.
  pub Beyond : Save → ℕ → ℕ → Type 0
  Beyond v q m =
      (k : ℕ) × (fresh k ≤ q)
      × (q + m ≤ fresh k + block)
      × ((v.blocks_used ≤ k) ⊎ ((v.blocks_used ≡ suc k) × (v.begin ≤ q)))

  -- The region `[q, q + m)` lies in one block, among what `v` counts as handed out.
  pub Within : Save → ℕ → ℕ → Type 0
  Within v q m =
      (k : ℕ) × (fresh k ≤ q)
      × (q + m ≤ fresh k + block)
      × ((suc k < v.blocks_used) ⊎ ((v.blocks_used ≡ suc k) × (q + m ≤ v.begin)))

  -- What one allocation promises.
  record Allocated (n : ℕ) (s : Stack) (p : ℕ) (t : Stack) : Type 0 where
    valid : IsValid t
    beyond : Beyond s.state p n
    within : Within t.state p n
    later :
        (s.state.blocks_used < t.state.blocks_used)
        ⊎ ((s.state.blocks_used ≡ t.state.blocks_used) × (s.state.begin ≤ t.state.begin))

  blocks-ensure :
      {s : Stack} (v : IsValid s)
      → (c : ℕ) × (ensure_block block fresh s ≡ bases fresh c) × (s.state.blocks_used < c)
  unfolding ensure_block
  blocks-ensure {s} v =
      let count_eq : length s.blocks ≡ v.count = ap length v.known ∙ length-bases fresh v.count in
      elim (Bool-cases (length s.blocks == s.state.blocks_used)) [
        | inl e ↦ (suc v.count, rw (e, v.known, length-bases fresh v.count), omega (arith, v.used))
        | inr e ↦ (v.count, rw e v.known, ground (arith, v.used, count_eq))
      ]

  -- After `next_block` all of the next block is free.
  pub next_block-Valid :
      {s : Stack}
      → IsValid s
      → IsValid (next_block block fresh s)
        × ((next_block block fresh s).state.blocks_used ≡ suc s.state.blocks_used)
        × ((next_block block fresh s).state.begin ≡ fresh s.state.blocks_used)
        × ((next_block block fresh s).state.end ≡ fresh s.state.blocks_used + block)
  unfolding next_block
  next_block-Valid {s} v =
      let (c, known, room) = blocks-ensure v in
      let base : get_or (ensure_block block fresh s) s.state.blocks_used 0
          ≡ fresh s.state.blocks_used =
        ap (λ l. get_or l s.state.blocks_used 0) known
        ∙ get_or-bases fresh c s.state.blocks_used room in
      (
        record {
          count = c;
          known = known;
          used = room;
          current =
              inr
                (s.state.blocks_used, refl, omega (arith, base), omega arith, omega (arith, base));
        },
        refl,
        base,
        ap (λ a. a + block) base,
      )

  alloc_bytes-Allocated :
      {s : Stack} (n : ℕ)
      → IsValid s
      → 0 < n
      → n ≤ block
      → Allocated n s (alloc_bytes block fresh n s).0 (alloc_bytes block fresh n s).1
  unfolding alloc_bytes bump Beyond Within
  alloc_bytes-Allocated {s} n v pos fits = elim (Bool-cases (ltb s.state.end (s.state.begin + n))) [
    | inl e ↦
        let (w, used, begin, end) = next_block-Valid v in
        rw e (record {
          valid = record {
            count = w.count;
            known = w.known;
            used = w.used;
            current = inr (s.state.blocks_used, used, omega arith, omega arith, end);
          };
          beyond = (s.state.blocks_used, omega arith, omega arith, inl (omega arith));
          within = (s.state.blocks_used, omega arith, omega arith, inr (used, omega arith));
          later = inl (omega arith);
        })
    | inr e ↦ rw e (bumped v.current (not_ltb→le _ _ e))
  ]
    where
      bumped :
          ((s.state.blocks_used ≡ 0) × (s.state.begin ≡ 0) × (s.state.end ≡ 0))
            ⊎ ((k : ℕ) × (s.state.blocks_used ≡ suc k)
                × (fresh k ≤ s.state.begin)
                × (s.state.begin ≤ s.state.end)
                × (s.state.end ≡ fresh k + block))
          → s.state.begin + n ≤ s.state.end
          → Allocated n s (bump n s).0 (bump n s).1
      bumped (inl (used, begin, end)) h = absurd (omega arith)
      bumped (inr (k, used, low, mid, end)) h = record {
        valid = record {
          count = v.count;
          known = v.known;
          used = v.used;
          current = inr (k, used, omega arith, omega arith, end);
        };
        beyond = (k, low, omega arith, inr (used, omega arith));
        within = (k, low, omega arith, inr (used, omega arith));
        later = inr (refl, omega arith);
      }

  pub alloc_bytes-IsValid :
      {s : Stack} (n : ℕ) → IsValid s → 0 < n → n ≤ block → IsValid (alloc_bytes block fresh n s).1
  alloc_bytes-IsValid n v pos fits = (alloc_bytes-Allocated n v pos fits).valid

  -- Blocks of the runtime do not overlap.
  abbrev pub Separate : Type 0
  Separate = (i j : ℕ) → i < j → (fresh i + block ≤ fresh j) ⊎ (fresh j + block ≤ fresh i)

  pub Apart : ℕ → ℕ → ℕ → ℕ → Type 0
  Apart p n q m = (p + n ≤ q) ⊎ (q + m ≤ p)

  Within-Beyond-Apart :
      (v : Save) (p n q m : ℕ) → Separate → Within v p n → Beyond v q m → Apart p n q m
  unfolding Within Beyond Apart
  Within-Beyond-Apart v p n q m sep (k, a, b, c) (j, d, e, f) = elim (dec_lt k j) [
    | yes lt ↦ apart (sep k j lt)
    | no ge ↦ same ge c f
  ]
    where
      apart : (fresh k + block ≤ fresh j) ⊎ (fresh j + block ≤ fresh k) → (p + n ≤ q) ⊎ (q + m ≤ p)
      apart (inl h) = inl (omega arith)
      apart (inr h) = inr (omega arith)

      same :
          ¬ (k < j)
          → (suc k < v.blocks_used) ⊎ ((v.blocks_used ≡ suc k) × (p + n ≤ v.begin))
          → (v.blocks_used ≤ j) ⊎ ((v.blocks_used ≡ suc j) × (v.begin ≤ q))
          → (p + n ≤ q) ⊎ (q + m ≤ p)
      same ge (inl c) (inl f) = absurd (omega arith)
      same ge (inl c) (inr f) = absurd (omega arith)
      same ge (inr c) (inl f) = absurd (omega arith)
      same ge (inr c) (inr f) = inl (omega arith)

  Later : Save → Save → Type 0
  Later u v =
      (u.blocks_used < v.blocks_used) ⊎ ((u.blocks_used ≡ v.blocks_used) × (u.begin ≤ v.begin))

  Beyond-mono : (u v : Save) (q m : ℕ) → Later u v → Beyond v q m → Beyond u q m
  unfolding Later Beyond
  Beyond-mono u v q m (inl l) (k, a, b, inl c) = (k, a, b, inl (omega arith))
  Beyond-mono u v q m (inl l) (k, a, b, inr c) = (k, a, b, inl (omega arith))
  Beyond-mono u v q m (inr l) (k, a, b, inl c) = (k, a, b, inl (omega arith))
  Beyond-mono u v q m (inr l) (k, a, b, inr c) = (k, a, b, inr (omega arith, omega arith))

  -- `R` holds of each allocation, by its address and size.
  pub Each : (ℕ → ℕ → Type 0) → List ℕ → List ℕ → Type 0
  Each R [] [] = Unit
  Each R (n ∷ ns) (p ∷ ps) = R p n × Each R ns ps
  Each R (n ∷ ns) [] = ⊥
  Each R [] (p ∷ ps) = ⊥

  pub AllApart : List ℕ → List ℕ → Type 0
  AllApart [] [] = Unit
  AllApart (n ∷ ns) (p ∷ ps) = Each (λ q m. Apart p n q m) ns ps × AllApart ns ps
  AllApart (n ∷ ns) [] = ⊥
  AllApart [] (p ∷ ps) = ⊥

  Each-mono :
      (R Q : ℕ → ℕ → Type 0)
      → ((q m : ℕ) → R q m → Q q m)
      → (ns ps : List ℕ) → Each R ns ps
      → Each Q ns ps
  unfolding Each
  Each-mono R Q f [] [] e = tt
  Each-mono R Q f (n ∷ ns) (p ∷ ps) e = (f p n e.0, Each-mono R Q f ns ps e.1)
  Each-mono R Q f (n ∷ ns) [] e = e
  Each-mono R Q f [] (p ∷ ps) e = e

  -- The sizes that a debug build accepts, less the empty ones.
  abbrev pub Fits : List ℕ → Type 0
  Fits = All (λ n. (0 < n) × (n ≤ block))

  -- Every allocation made after a `save` lies in one block of the allocator, and past all memory
  -- that was handed out before the save.
  pub alloc_all-Beyond :
      (ns : List ℕ) (s : Stack)
      → IsValid s
      → Fits ns
      → Each (Beyond s.state) ns (alloc_all block fresh ns s).0
  unfolding Each alloc_all Later
  alloc_all-Beyond [] s v f = tt
  alloc_all-Beyond (n ∷ ns) s v f =
      let a = alloc_bytes-Allocated n v f.0.0 f.0.1 in
      (
        a.beyond,
        Each-mono _ _ (λ q m. Beyond-mono s.state _ q m a.later) ns _
            (alloc_all-Beyond ns (alloc_bytes block fresh n s).1 a.valid f.1),
      )

  -- No two of the regions handed out one after the other overlap, provided the blocks that the
  -- runtime returns do not.
  pub alloc_all-AllApart :
      (ns : List ℕ) (s : Stack)
      → Separate
      → IsValid s
      → Fits ns
      → AllApart ns (alloc_all block fresh ns s).0
  unfolding AllApart alloc_all
  alloc_all-AllApart [] s sep v f = tt
  alloc_all-AllApart (n ∷ ns) s sep v f =
      let a = alloc_bytes-Allocated n v f.0.0 f.0.1 in
      (
        Each-mono _ _ (λ q m b. Within-Beyond-Apart _ _ n q m sep a.within b) ns _
            (alloc_all-Beyond ns (alloc_bytes block fresh n s).1 a.valid f.1),
        alloc_all-AllApart ns (alloc_bytes block fresh n s).1 sep a.valid f.1,
      )
