-- ===== src/Malloc/Grow.antt =====
-- A heap that grows: `common_sbrk` puts a slab behind the others.
use brainix_old.Base.{ℕ, ◌+◌, ◌*◌, ◌≤◌, ◌<◌, ◌≡◌, true, ◌||◌, List, [], ◌∷◌, arith, ◌==◌, mem}
use brainix_old.Malloc.{Heap, pg_size, add_slab}
use brainix_old.Malloc.Tiling.{Slabs, slab_range}

module _ {S : Type 0} (first : ℕ) where
  -- The last slab.
  pub last_slab :
      (h : Heap S) (a : ℕ) (xs : List ℕ) (e : ℕ)
      → Slabs h first a xs e
      → mem (h.links.prev first) (a ∷ xs) ≡ true
  last_slab h a [] e s = ground arith
  last_slab h a (b ∷ bs) e s = ground (arith, last_slab h b bs e s.3)

  -- What the list is with one slab more, at the old break.
  abbrev pub Grown : Heap S → (a : ℕ) → List ℕ → (old n : ℕ) → Type 0
  Grown h' a xs old n =
      (ys : List ℕ) × Slabs h' first a ys (old + n * pg_size)
      × ((k : ℕ) → mem k (a ∷ ys) ≡ (mem k (a ∷ xs) || (k == old)))

  pub add_slab-Slabs :
      (h : Heap S) (a old n : ℕ) (xs : List ℕ)
      → first ≤ a
      → 0 < n
      → Slabs h first a xs old
      → Grown (add_slab first h old n) a xs old n
  unfolding add_slab
  add_slab-Slabs h a old n [] le some_page s = (
    old ∷ [],
    (ground arith, ground arith, ground arith, (ground arith, ground arith, ground arith)),
    λ k. ground arith,
  )
  add_slab-Slabs h a old n (b ∷ bs) le some_page s =
      let lt : a < b = omega (arith, s.2) in
      let rest = add_slab-Slabs h b old n bs (omega arith) some_page s.3 in
      let last = last_slab h b bs old s.3 in
      let r = slab_range first old h b bs (h.links.prev first) s.3 last in
      (
        b ∷ rest.0,
        (ground arith, ground arith, ground arith, rest.1),
        λ k. ground (arith, rest.2 k),
      )
