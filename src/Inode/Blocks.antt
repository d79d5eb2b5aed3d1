-- ===== src/Inode/Blocks.antt =====
-- Blocks got, changed and put, as src/fs/inode.c, src/fs/group.c and src/fs/search.c do it, over the
-- cache of src/fs/block.c: through the cache a device reads as it was written.
use brainix_old.Base.{
  ℕ, ◌%◌, ◌<◌, ◌≡◌, ◌≢◌, ◌∙◌, refl, sym, ap, true, false, ◌&&◌, Option, none, some, List, [], ◌∷◌,
  ◌++◌, arith, ◌==◌, mem, erase, Bool-cases, inl, inr, if◌then◌else◌, Whenever, Whenever-bind,
  Whenever-if, ltb, ◌+◌,
}
use brainix_old.Super.{no_dev}
use brainix_old.Block.{
  Cache, DevRw, Got, got, no_free_blocks, fault, block_get, block_put, set_block,
}
use brainix_old.Block.Cached.{IsCache, IsCache-same}
use brainix_old.Block.Use.{Holds, mem-to_back}
use brainix_old.Block.Get.{Outcome, block_get-Outcome}
use brainix_old.Block.Store.{IsStore, block_limit, Contents}
use brainix_old.Block.Stored.{Loaded, block_get-Contents, recount-Contents}
use brainix_old.Inode.{Bytes, gotten, changed, robust, with_block}

module _ {Dev : Type 0} (look : Dev → (d off : ℕ) → Bytes) (dev_rw : DevRw Dev Bytes) (now : ℕ)
    (store : IsStore dev_rw look) where
  -- The cache and the devices behind it stand for m.
  abbrev pub Stores : ((d n : ℕ) → Bytes) → Cache Dev Bytes → Type 0
  Stores m c = (order : List ℕ) × IsCache c order × Contents look c order m

  -- They do, and the slot holds the block n of the device d.
  abbrev pub Has : ((d n : ℕ) → Bytes) → (d n : ℕ) → ℕ × Cache Dev Bytes → Type 0
  Has m d n (k, c) =
      (order : List ℕ) × IsCache c order
      × Contents look c order m
      × (mem k order ≡ true)
      × Holds c k d n

  -- The map with one block changed.
  abbrev pub after : ((d n : ℕ) → Bytes) → (d n : ℕ) → Option (Bytes → Bytes) → (d n : ℕ) → Bytes
  after m d n none = m
  after m d n (some f) = λ d' n'. if (d' == d) && (n' == n) then f (m d n) else m d' n'

  reordered :
      (c : Cache Dev Bytes) (order : List ℕ) (m : (d n : ℕ) → Bytes) (k : ℕ)
      → mem k order ≡ true
      → Contents look c order m
      → Contents look c (erase k order ++ (k ∷ [])) m
  reordered c order m k i h =
      let back : (j : ℕ) → mem j (erase k order ++ (k ∷ [])) ≡ mem j order =
        λ j. mem-to_back j k order i in
      record {
        small = λ j mj. h.small j (sym (back j) ∙ mj);
        held = λ j mj. h.held j (sym (back j) ∙ mj);
        clean = λ j mj. h.clean j (sym (back j) ∙ mj);
        absent = λ d n ne lt gone. h.absent d n ne lt λ j mj. gone j (back j ∙ mj);
      }

  pub block_get-Has :
      (c : Cache Dev Bytes) (m : (d n : ℕ) → Bytes) (d n : ℕ)
      → d ≢ no_dev
      → n < block_limit
      → Stores m c
      → Whenever (Has m d n) (gotten (block_get dev_rw now c d n))
  block_get-Has c m d n some_dev lt (order, v, h) =
      found (block_get dev_rw now c d n) (block_get-Outcome dev_rw now c order d n v)
        (block_get-Contents look dev_rw now store c order m d n v some_dev lt h)
    where
      found :
          (g : Got Dev Bytes)
          → Outcome c order d n g
          → Loaded look dev_rw now store order m g
          → Whenever (Has m d n) (gotten g)
      found (got k c') o l = (
        erase k order ++ (k ∷ []),
        o.2,
        reordered c' order m k o.0 l,
        mem-to_back k k order o.0 ∙ o.0,
        o.1,
      )
      found no_free_blocks o l = tt
      found fault o l = tt

  changed-Stores :
      (c : Cache Dev Bytes) (order : List ℕ) (m : (d n : ℕ) → Bytes) (k d n : ℕ)
      (f : Option (Bytes → Bytes))
      → d ≢ no_dev
      → n < block_limit
      → IsCache c order
      → Contents look c order m
      → mem k order ≡ true
      → Holds c k d n
      → IsCache (changed c k f) order × Contents look (changed c k f) order (after m d n f)
  changed-Stores c order m k d n none some_dev lt v h i at = (v, h)
  changed-Stores c order m k d n (some f) some_dev lt v h i at =
      let c' = changed c k (some f) in
      let here : (c.block k).contents ≡ m d n =
        h.held k i (rw at.0 some_dev) ∙ rw (at.0, at.1) refl in
      let self : ((d == d) && (n == n)) ≡ true = ground arith in
      (
        IsCache-same c c' order refl refl
            (λ j. elim (Bool-cases (j == k)) [
              | inl q ↦ let q' : j ≡ k = ground arith in rw (q, q') refl
              | inr q ↦ rw q refl
            ])
            (λ j. elim (Bool-cases (j == k)) [
              | inl q ↦ let q' : j ≡ k = ground arith in rw (q, q') refl
              | inr q ↦ rw q refl
            ])
            v,
        record {
          small = λ j mj. elim (Bool-cases (j == k)) [
            | inl q ↦ rw q (h.small k i)
            | inr q ↦ rw q (h.small j mj)
          ];
          held = λ j mj. elim (Bool-cases (j == k)) [
            | inl q ↦ rw q λ ne. rw (at.0, at.1, self) (ap f here)
            | inr q ↦ rw q λ ne. rw (other j mj q ne) (h.held j mj ne)
          ];
          clean = λ j mj. elim (Bool-cases (j == k)) [
            | inl q ↦ rw q λ ne e. absurd (ground arith)
            | inr q ↦ rw q λ ne e. rw (other j mj q ne) (h.clean j mj ne e)
          ];
          absent = λ d' n' ne lt' gone.
              let before : (j : ℕ) → mem j order ≡ true → ¬ Holds c j d' n' = λ j mj at'.
                gone j mj (elim (Bool-cases (j == k)) [
                  | inl q ↦ let q' : j ≡ k = ground arith in rw q (rw q' at at')
                  | inr q ↦ rw q at'
                ]) in
              let far : ((d' == d) && (n' == n)) ≡ false =
                elim (Bool-cases ((d' == d) && (n' == n))) [
                  | inl q ↦ absurd (before k i (ground arith, ground arith))
                  | inr q ↦ q
                ] in
              rw far (h.absent d' n' ne lt' before);
        },
      )
    where
      other :
          (j : ℕ)
          → mem j order ≡ true
          → (j == k) ≡ false
          → (c.block j).dev ≢ no_dev
          → (((c.block j).dev == d) && ((c.block j).blk == n)) ≡ false
      other j mj q ne = elim (Bool-cases (((c.block j).dev == d) && ((c.block j).blk == n))) [
        | inl t ↦
            let same_dev : (c.block j).dev ≡ d = ground arith in
            let same_blk : (c.block j).blk ≡ n = ground arith in
            let u = v.unique j k mj i ne (same_dev ∙ sym at.0) (same_blk ∙ sym at.1) in
            absurd (ground arith)
        | inr t ↦ t
      ]

  recount-Stores :
      (c : Cache Dev Bytes) (order : List ℕ) (m : (d n : ℕ) → Bytes) (k count : ℕ)
      → IsCache c order
      → Contents look c order m
      → Stores m (set_block c k (record (c.block k) { count = count }))
  recount-Stores c order m k count v h = (
    order,
    IsCache-same c (set_block c k (record (c.block k) { count = count })) order refl refl
        (λ j. elim (Bool-cases (j == k)) [
          | inl q ↦ let q' : j ≡ k = ground arith in rw (q, q') refl
          | inr q ↦ rw q refl
        ])
        (λ j. elim (Bool-cases (j == k)) [
          | inl q ↦ let q' : j ≡ k = ground arith in rw (q, q') refl
          | inr q ↦ rw q refl
        ])
        v,
    recount-Contents look dev_rw now store c order m k count h,
  )

  -- A block that has been got is changed and put.
  pub block_put-Stores :
      (m : (d n : ℕ) → Bytes) (d n : ℕ) (slot : ℕ × Cache Dev Bytes) (f : Option (Bytes → Bytes))
      → d ≢ no_dev
      → n < block_limit
      → Has m d n slot
      → Whenever
          (Stores (after m d n f))
          (block_put dev_rw now (changed slot.1 slot.0 f) (some slot.0) robust true)
  unfolding block_put
  block_put-Stores m d n (k, c) f some_dev lt (order, v, h, i, at) =
      let t = changed-Stores c order m k d n f some_dev lt v h i at in
      let c' = changed c k f in
      let count = ((c'.block k).count + 255) % 256 in
      let r = recount-Stores c' order (after m d n f) k count t.0 t.1 in
      Whenever-if (Stores (after m d n f)) (ltb 0 count) _ _ r r

  -- What an access to a block reads, and what it leaves.
  abbrev pub Accessed :
      ((d n : ℕ) → Bytes) → (d n : ℕ) → Option (Bytes → Bytes) → Bytes × Cache Dev Bytes → Type 0
  Accessed m d n f (b, c) = (b ≡ m d n) × Stores (after m d n f) c

  pub with_block-Accessed :
      (c : Cache Dev Bytes) (m : (d n : ℕ) → Bytes) (d n : ℕ) (f : Option (Bytes → Bytes))
      → d ≢ no_dev
      → n < block_limit
      → Stores m c
      → Whenever (Accessed m d n f) (with_block dev_rw now c d n f)
  unfolding with_block
  with_block-Accessed c m d n f some_dev lt s =
      Whenever-bind (Has m d n) (Accessed m d n f) (gotten (block_get dev_rw now c d n)) _
        (block_get-Has c m d n some_dev lt s)
        λ slot got_it.
          Whenever-bind (Stores (after m d n f)) (Accessed m d n f)
            (block_put dev_rw now (changed slot.1 slot.0 f) (some slot.0) robust true) _
            (block_put-Stores m d n slot f some_dev lt got_it) λ c' s'. (slot_read slot got_it, s')
    where
      slot_read :
          (slot : ℕ × Cache Dev Bytes) → Has m d n slot → (slot.1.block slot.0).contents ≡ m d n
      slot_read (k, c') (order, v, h, i, at) = h.held k i (rw at.0 some_dev) ∙ rw (at.0, at.1) refl
