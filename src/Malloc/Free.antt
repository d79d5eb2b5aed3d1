-- ===== src/Malloc/Free.antt =====
-- `common_free`: the slab is given back, and nothing else is.
use brainix_old.Base.{
  ℕ, ◌+◌, ◌-◌, ◌≤◌, ◌<◌, ◌≡◌, ◌≢◌, inl, inr, refl, ◌∙◌, sym, Bool, true, false, ◌&&◌, not, List, [],
  ◌∷◌, arith, ◌==◌, mem, if◌then◌else◌, Bool-cases, update,
}
use brainix_old.Malloc.{Heap, header, merge, common_free}
use brainix_old.Malloc.Tiling.{Slabs, next_slab, merge-Slabs, Slabs-frame}

-- Whether there is a slab at the address that is in use.
abbrev pub in_use : {S : Type 0} → Heap S → (first : ℕ) → List ℕ → ℕ → Bool
in_use h first xs k = mem k (first ∷ xs) && h.used k

module _ {S : Type 0} (first e : ℕ) where
  -- The slabs in use are the same, and have the same size.
  abbrev pub Same : Heap S → List ℕ → Heap S → List ℕ → Type 0
  Same h xs h' ys =
      ((k : ℕ) → in_use h' first ys k ≡ in_use h first xs k)
      × ((k : ℕ) → in_use h first xs k ≡ true → h'.size k ≡ h.size k)

  Same-trans :
      (h1 h2 h3 : Heap S) (xs ys zs : List ℕ)
      → Same h1 xs h2 ys
      → Same h2 ys h3 zs
      → Same h1 xs h3 zs
  Same-trans h1 h2 h3 xs ys zs p q = (λ k. q.0 k ∙ p.0 k, λ k i. q.1 k (p.0 k ∙ i) ∙ p.1 k i)

  -- The slab before a slab that is not the first.
  pub prev_slab :
      (h : Heap S) (a : ℕ) (xs : List ℕ) (k : ℕ)
      → first ≤ a
      → Slabs h first a xs e
      → mem k xs ≡ true
      → (mem (h.links.prev k) (a ∷ xs) ≡ true) × (h.links.next (h.links.prev k) ≡ k) × (first < k)
  prev_slab h a [] k le s i = absurd (ground arith)
  prev_slab h a (b ∷ bs) k le s i = elim (Bool-cases (k == b)) [
    | inl q ↦ ground arith
    | inr q ↦ let rest = prev_slab h b bs k (omega (arith, s.2)) s.3 (ground arith) in ground arith
  ]

  merge-Same :
      (h : Heap S) (slab : ℕ) (xs : List ℕ)
      → Slabs h first first xs e
      → mem slab (first ∷ xs) ≡ true
      → h.links.next slab ≢ first
      → h.used slab ≡ false
      → h.used (h.links.next slab) ≡ false
      → (ys : List ℕ) × Slabs (merge h slab) first first ys e
        × Same h xs (merge h slab) ys
        × ((k : ℕ) → mem k (first ∷ ys) ≡ (mem k (first ∷ xs) && not (k == h.links.next slab)))
  unfolding merge
  merge-Same h slab xs s i ne free free' =
      let m = merge-Slabs first e h first slab xs (omega arith) s i ne in
      (m.0, m.1, (λ k. ground (arith, m.2 k), λ k j. ground arith), m.2)

  -- The first merge of `common_free`: with the slab behind.
  merge_next : Heap S → ℕ → Heap S
  merge_next h slab =
      if not (h.links.next slab == first) && not (h.used (h.links.next slab))
      then merge h slab
      else h

  merge_prev : Heap S → ℕ → Heap S
  merge_prev h slab =
      let prev = h.links.prev slab in
      if not (prev == h.links.prev first) && not (h.used prev) then merge h prev else h

  merge_next-Same :
      (h : Heap S) (slab : ℕ) (xs : List ℕ)
      → Slabs h first first xs e
      → mem slab (first ∷ xs) ≡ true
      → h.used slab ≡ false
      → (ys : List ℕ) × Slabs (merge_next h slab) first first ys e
        × Same h xs (merge_next h slab) ys
        × (mem slab (first ∷ ys) ≡ true)
        × ((merge_next h slab).used slab ≡ false)
  unfolding merge_next
  merge_next-Same h slab xs s i free =
      elim (Bool-cases (not (h.links.next slab == first) && not (h.used (h.links.next slab)))) [
        | inl c ↦
            let m = merge-Same h slab xs s i (ground arith) free (ground arith) in
            let after = next_slab first e h first xs slab s i in
            let stays : (slab == h.links.next slab) ≡ false = elim after [
              | inl f ↦ ground arith
              | inr f ↦ ground arith
            ] in
            rw c (m.0, m.1, m.2, ground (arith, m.3 slab), unfold merge in free)
        | inr c ↦ rw c (xs, s, (λ k. refl, λ k j. refl), i, free)
      ]

  merge_prev-Same :
      (h : Heap S) (slab : ℕ) (xs : List ℕ)
      → Slabs h first first xs e
      → mem slab (first ∷ xs) ≡ true
      → h.used slab ≡ false
      → (ys : List ℕ) × Slabs (merge_prev h slab) first first ys e
        × Same h xs (merge_prev h slab) ys
  unfolding merge_prev
  merge_prev-Same h slab xs s i free =
      let prev = h.links.prev slab in
      elim (Bool-cases (not (prev == h.links.prev first) && not (h.used prev))) [
        | inl c ↦
            let inner : mem slab xs ≡ true = ground arith in
            let p = prev_slab h first xs slab (omega arith) s inner in
            let m = merge-Same h prev xs s p.0 (ground arith) (ground arith) (ground arith) in
            rw c (m.0, m.1, m.2)
        | inr c ↦ rw c (xs, s, (λ k. refl, λ k j. refl))
      ]

  common_free-merges :
      (h : Heap S) (slab : ℕ)
      → common_free first h (slab + header) ≡ (
          let h1 : Heap S = record h { used = update h.used slab false } in
          merge_prev (merge_next h1 slab) slab)
  unfolding common_free merge_next merge_prev
  common_free-merges h slab =
      let e : slab + header - header ≡ slab = omega arith in
      let ne : ((slab + header) == 0) ≡ false = ground arith in rw (ne, e) refl

  -- `common_free` on a heap whose slabs tile it: they still do, whether the slab is merged with the
  -- one behind, the one before, both or neither; the slabs in use are those that were in use but
  -- the one that is freed, and each has the size that it had.
  pub common_free_lem :
      (h : Heap S) (slab : ℕ) (xs : List ℕ)
      → Slabs h first first xs e
      → mem slab (first ∷ xs) ≡ true
      → let h' = common_free first h (slab + header) in
        (ys : List ℕ) × Slabs h' first first ys e
        × ((k : ℕ) → in_use h' first ys k ≡ (in_use h first xs k && not (k == slab)))
        × ((k : ℕ) → in_use h' first ys k ≡ true → h'.size k ≡ h.size k)
  common_free_lem h slab xs s i =
      let h1 : Heap S = record h { used = update h.used slab false } in
      let s1 = Slabs-frame first e h h1 first xs s (λ k q. (refl, refl)) (λ k q. refl) refl in
      let m = merge_next-Same h1 slab xs s1 i (ground arith) in
      let p = merge_prev-Same (merge_next h1 slab) slab m.0 m.1 m.3 m.4 in
      let same =
        Same-trans h1 (merge_next h1 slab) (merge_prev (merge_next h1 slab) slab) xs m.0 p.0 m.2
          p.2 in
      rw (common_free-merges h slab)
        (p.0, p.1, λ k. same.0 k ∙ ground arith, λ k j. same.1 k (sym (same.0 k) ∙ j))
