-- ===== src/Inode/Ready.antt =====
-- When getting a block and putting it again ends without a panic or a fault: src/fs/block.c as
-- src/fs/inode.c uses it.
use brainix_old.Base.{
  ℕ, zero, suc, ◌+◌, ◌%◌, ◌<◌, ◌≡◌, ◌≢◌, refl, ap, true, Option, none, some, List, [], ◌∷◌, arith,
  ◌==◌, mem, Bool-cases, inl, inr, ltb, length,
}
use brainix_old.Ring.Walk.{first_of-some}
use brainix_old.Super.{Supers, super_get, search_from, num_supers}
use brainix_old.Block.{
  Cache, DevRw, Got, got, no_free_blocks, fault, block_get, block_put, num_blocks, set_block,
}
use brainix_old.Block.Cached.{IsCache}
use brainix_old.Block.Get.{Outcome, block_get-Outcome}
use brainix_old.Block.Mounts.{entry, GotMounts, block_get-Mounts}
use brainix_old.Inode.{Bytes, changed, robust, with_block}

search_from-same :
    (s t : Supers) (d k n : ℕ)
    → ((j : ℕ) → (t j).dev ≡ (s j).dev)
    → search_from t d k n ≡ search_from s d k n
unfolding search_from
search_from-same s t d k zero h = refl
search_from-same s t d k (suc n) h = rw (h k, search_from-same s t d (k + 1) n h) refl

some_slot : (order : List ℕ) → length order ≡ num_blocks → (k : ℕ) × (mem k order ≡ true)
some_slot [] whole = absurd (omega arith)
some_slot (k ∷ order) whole = (k, ground arith)

module _ {Dev : Type 0} where
  abbrev pub IsMounted : Cache Dev Bytes → ℕ → Type 0
  IsMounted c d = super_get c.supers d ≢ none

  -- Nobody uses a block, and each block that must be written back is of a device that is mounted.
  abbrev pub Ready : Cache Dev Bytes → Type 0
  Ready c =
      (k : ℕ)
      → k < num_blocks
      → ((c.block k).count ≡ 0) × ((c.block k).dirty ≡ true → IsMounted c (c.block k).dev)

  -- The same devices are mounted, in the same slots.
  abbrev pub SameDevs : (c c' : Cache Dev Bytes) → Type 0
  SameDevs c c' = (j : ℕ) → (c'.supers j).dev ≡ (c.supers j).dev

  pub IsMounted-same :
      (c c' : Cache Dev Bytes) (d : ℕ) → SameDevs c c' → IsMounted c d → IsMounted c' d
  unfolding super_get
  IsMounted-same c c' d h some_there =
      rw (search_from-same c.supers c'.supers d 0 num_supers h) some_there

  -- All that Ready says but for slot k, which has one user and a block of a mounted device.
  abbrev InUse : Cache Dev Bytes → (k : ℕ) → Cache Dev Bytes → Type 0
  InUse c k c' =
      (k < num_blocks)
      × ((c'.block k).count ≡ 1)
      × IsMounted c' (c'.block k).dev
      × ((j : ℕ)
          → j < num_blocks
          → j ≢ k
          → ((c'.block j).count ≡ 0) × ((c'.block j).dirty ≡ true → IsMounted c' (c'.block j).dev))
      × SameDevs c c'

  module _ (dev_rw : DevRw Dev Bytes) (now : ℕ) where
    got_it :
        (c : Cache Dev Bytes) (order : List ℕ) (d n : ℕ)
        → IsCache c order
        → Ready c
        → IsMounted c d
        → (g : Got Dev Bytes) → Outcome c order d n g
        → GotMounts (λ j. entry (c.supers j)) dev_rw now g
        → (k : ℕ) × (c' : Cache Dev Bytes) × (g ≡ got k c') × InUse c k c'
    got_it c order d n v ready mounted (got k c') o u =
        let lt = v.in_table k o.0 in
        let devs : SameDevs c c' = λ j. ap (λ p. p.0) (u j) in
        (
          k,
          c',
          refl,
          (
            lt,
            (let idle = (ready k lt).0 in elim o.4 [ inl x ↦ omega (arith, x.1) | inr x ↦ x.1 ]),
            rw o.1.0 (IsMounted-same c c' d devs mounted),
            (λ j lt' ne. rw (o.3 j ne) (
              (ready j lt').0,
              λ e. IsMounted-same c c' (c.block j).dev devs ((ready j lt').1 e),
            )),
            devs,
          ),
        )
    got_it c order d n v ready mounted no_free_blocks o u =
        absurd (let (k, i) = some_slot order v.whole in (o k i).0 (ready k (v.in_table k i)).0)
    got_it c order d n v ready mounted fault o u =
        let k = o.1.0 in
        let i = (first_of-some _ k order o.1.1).0 in
        absurd ((ready k (v.in_table k i)).1 o.1.2 o.1.3)

    -- The changed block is put: its only use ends, and it is in the cache still.
    put_back :
        (c c' : Cache Dev Bytes) (k : ℕ) (f : Option (Bytes → Bytes))
        → InUse c k c'
        → (c2 : Cache Dev Bytes) × (block_put dev_rw now (changed c' k f) (some k) robust true
            ≡ some c2)
          × Ready c2
          × SameDevs c c2
    unfolding block_put
    put_back c c' k f (lt, once, mounted, others, devs) =
        let c1 = changed c' k f in
        let count = ((c1.block k).count + 255) % 256 in
        (
          set_block c1 k (record (c1.block k) { count = count }),
          elim (Bool-cases (ltb 0 count)) [ inl q ↦ rw q refl | inr q ↦ rw q refl ],
          left f,
          devs_of f,
        )
      where
        devs_of : (f : Option (Bytes → Bytes)) → SameDevs c (changed c' k f)
        devs_of none = devs
        devs_of (some g) = devs

        left :
            (f : Option (Bytes → Bytes))
            → let c1 = changed c' k f in
              Ready
                (set_block c1 k (record (c1.block k) { count = ((c1.block k).count + 255) % 256 }))
        left none j lt' = elim (Bool-cases (j == k)) [
          | inl q ↦ rw q (rw once refl, λ e. mounted)
          | inr q ↦ rw q (others j lt' (ground arith))
        ]
        left (some g) j lt' = elim (Bool-cases (j == k)) [
          | inl q ↦
              let self : (k == k) ≡ true = ground arith in rw (q, self) (rw once refl, λ e. mounted)
          | inr q ↦ rw q (others j lt' (ground arith))
        ]

    -- Where nobody uses a block, the block that is asked for is of a mounted device, and so is each
    -- that must be written back, an access to a block comes to an end, and it is so again.
    pub with_block-Ready :
        (c : Cache Dev Bytes) (order : List ℕ) (d n : ℕ) (f : Option (Bytes → Bytes))
        → IsCache c order
        → Ready c
        → IsMounted c d
        → (r : Bytes × Cache Dev Bytes) × (with_block dev_rw now c d n f ≡ some r)
          × Ready r.1
          × SameDevs c r.1
    unfolding with_block
    with_block-Ready c order d n f v ready mounted =
        let (k, c', e, used) =
          got_it c order d n v ready mounted (block_get dev_rw now c d n)
            (block_get-Outcome dev_rw now c order d n v)
            (block_get-Mounts (λ j. entry (c.supers j)) dev_rw now c d n λ j. refl) in
        let (c2, e2, ready2, devs2) = put_back c c' k f used in
        (((c'.block k).contents, c2), rw e (rw e2 refl), ready2, devs2)
