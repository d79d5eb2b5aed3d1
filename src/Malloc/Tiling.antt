-- ===== src/Malloc/Tiling.antt =====
-- The slabs of a heap tile it, and splitting and merging keep it so.
use brainix_old.Base.{
  ℕ, ◌+◌, ◌≤◌, ◌<◌, ◌≡◌, ◌≢◌, ◌⊎◌, inl, inr, true, ◌||◌, ◌&&◌, not, List, [], ◌∷◌, arith, ◌==◌, mem,
  Bool-cases,
}
use brainix_old.Malloc.{Heap, header, split, merge}

-- From the slab `a` on the slabs of the list follow each other without a gap, up to the address
-- `e`; the links lead through them in this order, and back to the first slab.
abbrev pub Slabs : {S : Type 0} → Heap S → (first a : ℕ) → List ℕ → (e : ℕ) → Type 0
Slabs h first a [] e =
    (h.links.next a ≡ first) × (h.links.prev first ≡ a) × (a + header + h.size a ≡ e)
Slabs h first a (b ∷ bs) e =
    (h.links.next a ≡ b) × (h.links.prev b ≡ a) × (a + header + h.size a ≡ b) × Slabs h first b bs e

module _ {S : Type 0} (first e : ℕ) where
  -- Where the slabs lie.
  pub slab_range :
      (h : Heap S) (a : ℕ) (xs : List ℕ) (k : ℕ)
      → Slabs h first a xs e
      → mem k (a ∷ xs) ≡ true
      → (a ≤ k) × (k + header + h.size k ≤ e)
  slab_range h a [] k s i = ground arith
  slab_range h a (b ∷ bs) k s i = elim (Bool-cases (k == a)) [
    | inl q ↦ let r = slab_range h b bs b s.3 (ground arith) in ground arith
    | inr q ↦ let r = slab_range h b bs k s.3 (ground arith) in ground arith
  ]

  -- No slab begins inside another.
  pub slab_gap :
      (h : Heap S) (a : ℕ) (xs : List ℕ) (k t : ℕ)
      → Slabs h first a xs e
      → mem k (a ∷ xs) ≡ true
      → mem t (a ∷ xs) ≡ true
      → (k ≤ t) ⊎ (t + header + h.size t ≤ k)
  slab_gap h a [] k t s i j = inl (ground arith)
  slab_gap h a (b ∷ bs) k t s i j = elim (Bool-cases (k == a)) [
    | inl p ↦ let r = slab_range h a (b ∷ bs) t s j in inl (ground arith)
    | inr p ↦ elim (Bool-cases (t == a)) [
      | inl q ↦ let r = slab_range h b bs k s.3 (ground arith) in inr (ground arith)
      | inr q ↦ slab_gap h b bs k t s.3 (ground arith) (ground arith)
    ]
  ]

  -- Writes before the slabs, and to the slabs outside, leave them alone.
  pub Slabs-frame :
      (h h' : Heap S) (a : ℕ) (xs : List ℕ)
      → Slabs h first a xs e
      → ((k : ℕ) → a ≤ k → (h'.links.next k ≡ h.links.next k) × (h'.size k ≡ h.size k))
      → ((k : ℕ) → a < k → h'.links.prev k ≡ h.links.prev k)
      → h'.links.prev first ≡ h.links.prev first
      → Slabs h' first a xs e
  Slabs-frame h h' a [] s same same_prev same_first = let q = same a (omega arith) in ground arith
  Slabs-frame h h' a (b ∷ bs) s same same_prev same_first =
      let q = same a (omega arith) in
      let p = same_prev b (omega (arith, s.2)) in
      let rest =
        Slabs-frame h h' b bs s.3 (λ k le. same k (omega (arith, s.2)))
          (λ k lt. same_prev k (omega (arith, s.2))) same_first in
      (ground arith, ground arith, ground arith, rest)

  -- The slab that follows comes later, or is the first one again.
  pub next_slab :
      (h : Heap S) (a : ℕ) (xs : List ℕ) (k : ℕ)
      → Slabs h first a xs e
      → mem k (a ∷ xs) ≡ true
      → (h.links.next k ≡ first)
        ⊎ ((k < h.links.next k)
            × (h.links.next k ≡ k + header + h.size k)
            × (mem (h.links.next k) (a ∷ xs) ≡ true))
  next_slab h a [] k s i = inl (ground arith)
  next_slab h a (b ∷ bs) k s i = elim (Bool-cases (k == a)) [
    | inl q ↦ inr (ground arith)
    | inr q ↦ elim (next_slab h b bs k s.3 (ground arith)) [
      | inl n ↦ inl n
      | inr n ↦ inr (ground arith)
    ]
  ]

  -- What the list is after `split`: one slab more, at the address `new`.
  abbrev pub Split : Heap S → (a : ℕ) → List ℕ → (new : ℕ) → Type 0
  Split h' a xs new =
      (ys : List ℕ) × Slabs h' first a ys e
      × ((k : ℕ) → mem k (a ∷ ys) ≡ (mem k (a ∷ xs) || (k == new)))

  split_here :
      (h : Heap S) (a n : ℕ) (xs : List ℕ)
      → first ≤ a
      → Slabs h first a xs e
      → n + header < h.size a
      → Split (split h a n) a xs (a + header + n)
  unfolding split
  split_here h a n [] le s fits = (
    (a + header + n) ∷ [],
    (ground arith, ground arith, ground arith, ground arith),
    λ k. ground arith,
  )
  split_here h a n (b ∷ bs) le s fits =
      let new = a + header + n in
      let rest =
        Slabs-frame h (split h a n) b bs s.3 (λ k q. ground arith) (λ k q. ground arith)
          (ground arith) in
      (
        new ∷ b ∷ bs,
        (
          ground arith,
          ground arith,
          ground arith,
          (ground arith, ground arith, ground arith, rest),
        ),
        λ k. ground arith,
      )

  -- Splitting a slab that is large enough: the slabs tile the heap as before.
  pub split-Slabs :
      (h : Heap S) (a slab n : ℕ) (xs : List ℕ)
      → first ≤ a
      → Slabs h first a xs e
      → mem slab (a ∷ xs) ≡ true
      → n + header < h.size slab
      → Split (split h slab n) a xs (slab + header + n)
  unfolding split
  split-Slabs h a slab n [] le s i fits =
      let q : slab ≡ a = ground arith in rw q (split_here h a n [] le s (ground arith))
  split-Slabs h a slab n (b ∷ bs) le s i fits = elim (Bool-cases (slab == a)) [
    | inl q ↦
        let q' : slab ≡ a = ground arith in rw q' (split_here h a n (b ∷ bs) le s (ground arith))
    | inr q ↦
        let i' : mem slab (b ∷ bs) ≡ true = ground arith in
        let lt : a < b = omega (arith, s.2) in
        let rest = split-Slabs h b slab n bs (omega arith) s.3 i' fits in
        let r = slab_range h b bs slab s.3 i' in
        let after = next_slab h b bs slab s.3 i' in
        (
          b ∷ rest.0,
          elim after [
            | inl f ↦ (ground arith, ground arith, ground arith, rest.1)
            | inr f ↦ (ground arith, ground arith, ground arith, rest.1)
          ],
          λ k. ground (arith, rest.2 k),
        )
  ]

  -- What the list is after `merge`: without the slab `gone`.
  abbrev pub Merged : Heap S → (a : ℕ) → List ℕ → (gone : ℕ) → Type 0
  Merged h' a xs gone =
      (ys : List ℕ) × Slabs h' first a ys e
      × ((k : ℕ) → mem k (a ∷ ys) ≡ (mem k (a ∷ xs) && not (k == gone)))

  merge_here :
      (h : Heap S) (a b : ℕ) (bs : List ℕ)
      → first ≤ a
      → Slabs h first a (b ∷ bs) e
      → Merged (merge h a) a (b ∷ bs) b
  unfolding merge
  merge_here h a b [] le s = ([], (ground arith, ground arith, ground arith), λ k. ground arith)
  merge_here h a b (c ∷ cs) le s =
      let lt : a < b = omega (arith, s.2) in
      let lt' : b < c = omega (arith, s.3.2) in
      let rest =
        Slabs-frame h (merge h a) c cs s.3.3 (λ k q. ground arith) (λ k q. ground arith)
          (ground arith) in
      (
        c ∷ cs,
        (ground arith, ground arith, ground arith, rest),
        λ k. elim (Bool-cases (k == b)) [
          | inl q ↦
              let r = λ (i : mem b (c ∷ cs) ≡ true). slab_range h c cs b s.3.3 i in
              elim (Bool-cases (mem b (c ∷ cs))) [
                | inl i ↦ absurd (let r' = r i in omega arith)
                | inr o ↦ ground arith
              ]
          | inr q ↦ ground arith
        ],
      )

  merge_at :
      (h : Heap S) (a b slab : ℕ) (bs : List ℕ)
      → first ≤ a
      → Slabs h first a (b ∷ bs) e
      → slab ≡ a
      → Merged (merge h slab) a (b ∷ bs) (h.links.next slab)
  merge_at h a b slab bs le s q = rw (q, s.0) (merge_here h a b bs le s)

  -- Merging a slab with the one behind it: the slabs tile the heap as before.
  pub merge-Slabs :
      (h : Heap S) (a slab : ℕ) (xs : List ℕ)
      → first ≤ a
      → Slabs h first a xs e
      → mem slab (a ∷ xs) ≡ true
      → h.links.next slab ≢ first
      → Merged (merge h slab) a xs (h.links.next slab)
  unfolding merge
  merge-Slabs h a slab [] le s i ne = absurd (ground arith)
  merge-Slabs h a slab (b ∷ bs) le s i ne = elim (Bool-cases (slab == a)) [
    | inl q ↦ merge_at h a b slab bs le s (ground arith)
    | inr q ↦
        let i' : mem slab (b ∷ bs) ≡ true = ground arith in
        let lt : a < b = omega (arith, s.2) in
        let rest = merge-Slabs h b slab bs (omega arith) s.3 i' ne in
        let r = slab_range h b bs slab s.3 i' in
        elim (next_slab h b bs slab s.3 i') [
          | inl f ↦ absurd (ne f)
          | inr f ↦
              let after = next_slab h b bs (h.links.next slab) s.3 f.2 in
              (
                b ∷ rest.0,
                elim after [
                  | inl g ↦ (ground arith, ground arith, ground arith, rest.1)
                  | inr g ↦ (ground arith, ground arith, ground arith, rest.1)
                ],
                λ k. ground (arith, rest.2 k),
              )
        ]
  ]
