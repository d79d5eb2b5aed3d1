-- ===== src/Malloc/Alloc.antt =====
-- `common_malloc`: it ends, and hands out a slab that nobody uses.
use brainix_old.Base.{
  ℕ, zero, suc, ◌+◌, ◌*◌, ◌^◌, ◌≤◌, ◌<◌, ◌≡◌, inl, inr, refl, ◌∙◌, ap, true, false, ◌||◌, List, [],
  ◌∷◌, arith, ◌==◌, mem, Bool-cases, update, Option, some, ltb, leb,
}
use brainix_old.Malloc.{
  Heap, header, pg_size, split, add_slab, take_slab, new_pages, pages_for, sbrk_with, common_sbrk,
  search, common_malloc,
}
use brainix_old.Malloc.Tiling.{Slabs, slab_range, slab_gap, next_slab, split-Slabs, Slabs-frame}
use brainix_old.Malloc.Grow.{add_slab-Slabs}
use brainix_old.Malloc.Free.{in_use, Same}

module _ {S : Type 0} (first : ℕ) where
  -- The slab behind the last is the first.
  at_last :
      (h : Heap S) (a : ℕ) (xs : List ℕ) (e k : ℕ)
      → first ≤ a
      → Slabs h first a xs e
      → mem k (a ∷ xs) ≡ true
      → h.links.next k ≡ first
      → h.links.prev first ≡ k
  at_last h a [] e k le s i q = ground arith
  at_last h a (b ∷ bs) e k le s i q = elim (Bool-cases (k == a)) [
    | inl c ↦ absurd (ground arith)
    | inr c ↦ at_last h b bs e k (omega (arith, s.2)) s.3 (ground arith) q
  ]

  -- A slab that is free and large enough, in a heap with the same slabs in use; `e` is its end.
  abbrev pub Found : Heap S → List ℕ → (n : ℕ) → ℕ → Heap S → (e : ℕ) → Type 0
  Found h xs n t h' e =
      (ys : List ℕ) × Slabs h' first first ys e
      × (mem t (first ∷ ys) ≡ true)
      × (h'.used t ≡ false)
      × (n ≤ h'.size t)
      × Same first e h xs h' ys

  module _ (next_addr : S → ℕ) (new_page : S → Option S) (n : ℕ) (h : Heap S) (xs : List ℕ) (s' : S)
      (some_bytes : 0 < n) (small : n + header < 2 ^ 31)
      (tiled : Slabs h first first xs (next_addr h.pages))
      (room : new_pages new_page (pages_for n) h.pages ≡ (true, s')) where
    abbrev pub old : ℕ
    old = next_addr h.pages

    abbrev num : ℕ
    num = pages_for n

    -- The heap after `common_sbrk`.
    abbrev grown : Heap S
    grown = add_slab first (record h { pages = s' }) old num

    sbrk-grown : (common_sbrk first next_addr new_page h n).1 ≡ grown
    unfolding common_sbrk sbrk_with
    sbrk-grown = let c : ((n == 0) || leb (2 ^ 31) n) ≡ false = ground arith in rw (c, room) refl

    grown-Found : Found h xs n old grown (old + num * pg_size)
    grown-Found =
        let more : (0 < num) × (n + header ≤ num * pg_size) = (ground arith, ground arith) in
        let t1 =
          Slabs-frame first old h (record h { pages = s' }) first xs tiled (λ k q. (refl, refl))
            (λ k q. refl) refl in
        let g =
          add_slab-Slabs first (record h { pages = s' }) first old num xs (omega arith) more.0 t1 in
        let range =
          λ (k : ℕ) (i : mem k (first ∷ xs) ≡ true). slab_range first old h first xs k tiled i in
        let fresh : mem old (first ∷ xs) ≡ false = elim (Bool-cases (mem old (first ∷ xs))) [
          | inl i ↦ absurd (let r = range old i in omega arith)
          | inr o ↦ o
        ] in
        (
          g.0,
          g.1,
          g.2 old ∙ ground arith,
          unfold add_slab in ground arith,
          unfold add_slab in ground arith,
          (
            (λ k. let m = g.2 k in unfold add_slab in ground arith),
            (λ k i. unfold add_slab in ground arith),
          ),
        )

    -- The loop ends at a slab that is free and large enough, which is in the heap already or is the
    -- one that is put behind the others.
    search-grown :
        (fuel : ℕ) → search first next_addr new_page (suc fuel) grown old n ≡ some (old, grown)
    unfolding search
    search-grown fuel =
        let f = grown-Found in
        let c : (grown.used old || ltb (grown.size old) n) ≡ false = ground (arith, f.3, f.4) in
        rw c refl

    search_here :
        (fuel slab : ℕ)
        → (h.used slab || ltb (h.size slab) n) ≡ false
        → search first next_addr new_page (suc fuel) h slab n ≡ some (slab, h)
    unfolding search
    search_here fuel slab c = rw c refl

    search_on :
        (fuel slab : ℕ)
        → (h.used slab || ltb (h.size slab) n) ≡ true
        → (h.links.next slab == first) ≡ false
        → search first next_addr new_page (suc fuel) h slab n
          ≡ search first next_addr new_page fuel h (h.links.next slab) n
    unfolding search
    search_on fuel slab c q = rw (c, q) refl

    search_last :
        (fuel slab : ℕ)
        → (h.used slab || ltb (h.size slab) n) ≡ true
        → (h.links.next slab == first) ≡ true
        → search first next_addr new_page (suc fuel) h slab n
          ≡ search first next_addr new_page fuel grown (grown.links.next slab) n
    unfolding search
    search_last fuel slab c q = rw (c, q, sbrk-grown) refl

    next-grown : (slab : ℕ) → slab < old → h.links.prev first ≡ slab → grown.links.next slab ≡ old
    unfolding add_slab
    next-grown slab lt last = ground arith

    search-Found :
        (fuel slab : ℕ)
        → mem slab (first ∷ xs) ≡ true
        → old < slab + fuel
        → (t : ℕ) × (h' : Heap S) × (e : ℕ) × (search first next_addr new_page fuel h slab n
            ≡ some (t, h'))
          × Found h xs n t h' e
    search-Found zero slab i enough =
        let r = slab_range first old h first xs slab tiled i in absurd (omega arith)
    search-Found (suc zero) slab i enough =
        let r = slab_range first old h first xs slab tiled i in absurd (omega arith)
    search-Found (suc (suc fuel)) slab i enough =
        elim (Bool-cases (h.used slab || ltb (h.size slab) n)) [
          | inl c ↦ elim (Bool-cases (h.links.next slab == first)) [
            | inl q ↦
                let last = at_last h first xs old slab (omega arith) tiled i (ground arith) in
                let r = slab_range first old h first xs slab tiled i in
                let next = next-grown slab (omega arith) last in
                let stop' =
                  ap (λ k. search first next_addr new_page (suc fuel) grown k n) next
                  ∙ search-grown fuel in
                (
                  old,
                  grown,
                  old + num * pg_size,
                  search_last (suc fuel) slab c q ∙ stop',
                  grown-Found,
                )
            | inr q ↦ elim (next_slab first old h first xs slab tiled i) [
              | inl f ↦ absurd (ground arith)
              | inr f ↦
                  let rest = search-Found (suc fuel) (h.links.next slab) f.2 (omega (arith, f.0)) in
                  (rest.0, rest.1, rest.2, search_on (suc fuel) slab c q ∙ rest.3, rest.4)
            ]
          ]
          | inr c ↦ (
            slab,
            h,
            old,
            search_here (suc fuel) slab c,
            (xs, tiled, i, ground arith, ground arith, (λ k. refl, λ k j. refl)),
          )
        ]

    -- What `common_malloc` leaves: the slab before the pointer is in use and large enough, nobody
    -- used it, and the other slabs in use are those that were, each of the size that it had.
    abbrev pub Given : ℕ → Heap S → ℕ → Type 0
    Given t h' e =
        (ys : List ℕ) × Slabs h' first first ys e
        × (n ≤ h'.size t)
        × (in_use h first xs t ≡ false)
        × ((k : ℕ) → in_use h' first ys k ≡ (in_use h first xs k || (k == t)))
        × ((k : ℕ) → in_use h first xs k ≡ true → h'.size k ≡ h.size k)

    take_slab-Given :
        (t e : ℕ) (h' : Heap S) → Found h xs n t h' e → Given t (take_slab first h' t n) e
    unfolding take_slab
    take_slab-Given t e h' f = elim (Bool-cases (ltb (n + header) (h'.size t))) [
      | inl c ↦
          let m = split-Slabs first e h' first t n f.0 (omega arith) f.1 f.2 (ground arith) in
          let s : Heap S = split h' t n in
          let framed =
            Slabs-frame first e s (record s { used = update s.used t true }) first m.0 m.1
              (λ k q. (refl, refl)) (λ k q. refl) refl in
          let gap = λ (k : ℕ) (i : mem k (first ∷ f.0) ≡ true).
            slab_gap first e h' first f.0 k t f.1 i f.2 in
          let new : mem (t + header + n) (first ∷ f.0) ≡ false =
            elim (Bool-cases (mem (t + header + n) (first ∷ f.0))) [
              | inl i ↦ elim (gap (t + header + n) i) [
                | inl p ↦ absurd (omega arith)
                | inr p ↦ absurd (ground arith)
              ]
              | inr o ↦ o
            ] in
          rw c (
            m.0,
            framed,
            (unfold split in ground arith),
            ground (arith, f.5.0 t),
            (λ k. let q = m.2 k in let u = f.5.0 k in unfold split in ground arith),
            (λ k i. let u = f.5.0 k in let z = f.5.1 k i in unfold split in ground arith),
          )
      | inr c ↦
          let framed =
            Slabs-frame first e h' (record h' { used = update h'.used t true }) first f.0 f.1
              (λ k q. (refl, refl)) (λ k q. refl) refl in
          rw c (
            f.0,
            framed,
            f.4,
            ground (arith, f.5.0 t),
            (λ k. let u = f.5.0 k in ground arith),
            λ k i. f.5.1 k i,
          )
    ]

    malloc-search :
        (fuel t : ℕ) (h' : Heap S)
        → search first next_addr new_page fuel h first n ≡ some (t, h')
        → common_malloc first next_addr new_page fuel h n
          ≡ some (some (t + header), take_slab first h' t n)
    unfolding common_malloc
    malloc-search fuel t h' q = let c : (n == 0) ≡ false = ground arith in rw (c, q) refl

    -- `common_malloc` ends, on a heap whose slabs tile it and when the pages can be had that it may
    -- need, and returns the address behind a slab's header. The slabs tile the heap, which may have
    -- grown; that slab was used by nobody and is large enough; and the slabs in use are those that
    -- were in use, each of the size that it had, and this one.
    pub common_malloc_lem :
        (fuel : ℕ)
        → old < first + fuel
        → (t : ℕ) × (h' : Heap S) × (e : ℕ) × (common_malloc first next_addr new_page fuel h n
            ≡ some (some (t + header), h'))
          × Given t h' e
    common_malloc_lem fuel enough =
        let f = search-Found fuel first (ground arith) enough in
        (
          f.0,
          take_slab first f.1 f.0 n,
          f.2,
          malloc-search fuel f.0 f.1 f.3,
          take_slab-Given f.0 f.2 f.1 f.4,
        )
