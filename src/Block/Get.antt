-- ===== src/Block/Get.antt =====
-- `block_get`: what it returns, what it evicts, and that the cache stays a cache.
use brainix_old.Base.{
  ℕ, ◌+◌, ◌%◌, ◌^◌, ◌≡◌, ◌≢◌, refl, ◌∙◌, sym, Bool, true, false, ◌&&◌, Option, none, some, List, [],
  ◌∷◌, ◌++◌, arith, ◌==◌, mem, erase, Bool-cases, inl, inr, ◌⊎◌,
}
use brainix_old.Ring.Walk.{
  first_of, first_of-some, first_of-none, rev, mem-rev, walk_queue, walk_back,
}
use brainix_old.Super.{no_dev, super_get}
use brainix_old.Block.{
  Cache, DevRw, num_blocks, recently_used, block_rw, set_block, Got, got, no_free_blocks, fault,
  block_get, get_from, hit, miss, evict, read_in,
}
use brainix_old.Block.Use.{Holds, block-recently_used, IsCache-used}
use brainix_old.Block.Cached.{IsCache, Transferred, block_rw-Transferred, block_rw_read}

module _ {Dev Data : Type 0} where
  -- The two tests of `block_get`.
  abbrev pub free : Cache Dev Data → ℕ → Bool
  free c k = (c.block k).count == 0

  abbrev pub asked : Cache Dev Data → (d n : ℕ) → ℕ → Bool
  asked c d n k = ((c.block k).dev == d) && ((c.block k).blk == n)

  taken_over :
      (c : Cache Dev Data) (k j d n : ℕ)
      → j ≢ k
      → (set_block c k (record (c.block k) { dev = d; blk = n; count = 1; dirty = true })).block j
        ≡ c.block j
  taken_over c k j d n ne = ground arith

  -- Where the block comes from: the slot held it, and counts one use more; or the slot was the
  -- least recently used of the free ones, and counts one use.
  abbrev pub Origin : (c c' : Cache Dev Data) → List ℕ → (k d n : ℕ) → Type 0
  Origin c c' order k d n =
      (Holds c k d n × ((c'.block k).count ≡ ((c.block k).count + 1) % 2 ^ 8))
      ⊎ ((first_of (free c) order ≡ some k) × ((c'.block k).count ≡ 1))

  -- What `block_get` may come to. A slot of the cache now holds the block that was asked for, and
  -- is the most recently used; no other slot has changed. Or no slot holds the block, and every
  -- slot is in use. Or no slot holds the block, and the one to evict is dirty and of a device that
  -- is not mounted, so that it cannot be written.
  abbrev pub Outcome : Cache Dev Data → List ℕ → (d n : ℕ) → Got Dev Data → Type 0
  Outcome c order d n (got k c') =
      (mem k order ≡ true)
      × Holds c' k d n
      × IsCache c' (erase k order ++ (k ∷ []))
      × ((j : ℕ) → j ≢ k → c'.block j ≡ c.block j)
      × Origin c c' order k d n
  Outcome c order d n no_free_blocks =
      (j : ℕ) → mem j order ≡ true → ((c.block j).count ≢ 0) × ¬ Holds c j d n
  Outcome c order d n fault =
      ((j : ℕ) → mem j order ≡ true → ¬ Holds c j d n)
      × ((k : ℕ) × (first_of (free c) order ≡ some k)
          × ((c.block k).dirty ≡ true)
          × (super_get c.supers (c.block k).dev ≡ none))

  used-Outcome :
      (c c' : Cache Dev Data) (order : List ℕ) (k d n : ℕ)
      → IsCache c order
      → mem k order ≡ true
      → c'.links ≡ c.links
      → c'.lru ≡ c.lru
      → ((j : ℕ) → j ≢ k → c'.block j ≡ c.block j)
      → Holds c' k d n
      → ((j : ℕ) → mem j order ≡ true → j ≢ k → Holds c j d n → d ≡ no_dev)
      → Origin c c' order k d n
      → Outcome c order d n (got k (recently_used c' k true))
  used-Outcome c c' order k d n v i el eh same h fresh o =
      let e = block-recently_used c' k true in
      (
        i,
        rw e h,
        IsCache-used c c' order k d n v i el eh same h fresh,
        λ j ne. rw e (same j ne),
        rw e o,
      )

  held_once :
      (c : Cache Dev Data) (order : List ℕ) (k d n : ℕ)
      → IsCache c order
      → mem k order ≡ true
      → Holds c k d n
      → (j : ℕ) → mem j order ≡ true
      → j ≢ k
      → Holds c j d n
      → d ≡ no_dev
  held_once c order k d n v i h j m ne hj = elim (Bool-cases (d == no_dev)) [
    | inl e ↦ ground arith
    | inr e ↦ absurd (ne (v.unique j k m i (ground arith) (hj.0 ∙ sym h.0) (hj.1 ∙ sym h.1)))
  ]

  module _ (dev_rw : DevRw Dev Data) (now : ℕ) where
    hit-Outcome :
        (c : Cache Dev Data) (order : List ℕ) (k d n : ℕ)
        → IsCache c order
        → mem k order ≡ true
        → Holds c k d n
        → Outcome c order d n (hit dev_rw now c k)
    unfolding hit
    hit-Outcome c order k d n v i h =
        used-Outcome c
          (set_block c k (record (c.block k) { count = ((c.block k).count + 1) % 2 ^ 8 })) order k d
          n v i refl refl (λ j ne. ground arith) (ground arith, ground arith)
          (held_once c order k d n v i h) (inl (h, ground arith))

    read_in-Outcome :
        (c c2 : Cache Dev Data) (order : List ℕ) (k d n : ℕ)
        → IsCache c order
        → mem k order ≡ true
        → ((j : ℕ) → mem j order ≡ true → ¬ Holds c j d n)
        → first_of (free c) order ≡ some k
        → Transferred c k (some c2)
        → (r : Option (Cache Dev Data)) → r ≢ none
        → Transferred
            (set_block c2 k (record (c2.block k) { dev = d; blk = n; count = 1; dirty = true }))
            k
            r
        → Outcome c order d n (read_in dev_rw now r k)
    unfolding read_in
    read_in-Outcome c c2 order k d n v i absent lru t none ne t' = absurd (ne refl)
    read_in-Outcome c c2 order k d n v i absent lru t (some c3) ne t' =
        used-Outcome c c3 order k d n v i (t'.0 ∙ t.0) (t'.1 ∙ t.1)
          (λ j far. t'.2 j far ∙ taken_over c2 k j d n far ∙ t.2 j far)
          (t'.3 ∙ ground arith, t'.4 ∙ ground arith) (λ j m far hj. absurd (absent j m hj))
          (inr (lru, t'.5 ∙ ground arith))

    evict-Outcome :
        (c : Cache Dev Data) (order : List ℕ) (k d n : ℕ)
        → IsCache c order
        → mem k order ≡ true
        → ((j : ℕ) → mem j order ≡ true → ¬ Holds c j d n)
        → first_of (free c) order ≡ some k
        → (r : Option (Cache Dev Data)) → Transferred c k r
        → Outcome c order d n (evict dev_rw now r k d n)
    unfolding evict
    evict-Outcome c order k d n v i absent lru none t = (absent, (k, lru, t.0, t.1))
    evict-Outcome c order k d n v i absent lru (some c2) t =
        read_in-Outcome c c2 order k d n v i absent lru t _
          (block_rw_read dev_rw now
            (set_block c2 k (record (c2.block k) { dev = d; blk = n; count = 1; dirty = true })) k)
          (block_rw-Transferred dev_rw now
            (set_block c2 k (record (c2.block k) { dev = d; blk = n; count = 1; dirty = true })) k
            true)

    miss-Outcome :
        (c : Cache Dev Data) (order : List ℕ) (d n : ℕ)
        → IsCache c order
        → ((j : ℕ) → mem j order ≡ true → ¬ Holds c j d n)
        → (r : Option ℕ) → r ≡ first_of (free c) order
        → Outcome c order d n (miss dev_rw now c d n r)
    unfolding miss
    miss-Outcome c order d n v absent none e =
        λ j m. (let busy = first_of-none (free c) j order (sym e) m in ground arith, absent j m)
    miss-Outcome c order d n v absent (some k) e =
        evict-Outcome c order k d n v (first_of-some (free c) k order (sym e)).0 absent (sym e)
          (block_rw dev_rw now c k false) (block_rw-Transferred dev_rw now c k false)

    get_from-Outcome :
        (c : Cache Dev Data) (order : List ℕ) (d n : ℕ)
        → IsCache c order
        → (r : Option ℕ) → r ≡ first_of (asked c d n) (rev order)
        → Outcome c order d n (get_from dev_rw now c d n r)
    unfolding get_from
    get_from-Outcome c order d n v none e =
        miss-Outcome c order d n v
          (λ j m h.
            let miss_j = first_of-none (asked c d n) j (rev order) (sym e) (mem-rev j order ∙ m) in
            ground arith)
          _ (walk_queue num_blocks c.links (free c) c.lru order v.queue (omega (arith, v.whole)))
    get_from-Outcome c order d n v (some k) e =
        let found = first_of-some (asked c d n) k (rev order) (sym e) in
        hit-Outcome c order k d n v (sym (mem-rev k order) ∙ found.0) (ground arith)

    -- From a valid cache, a slot that `block_get` returns holds the requested block of the requested device, and is
    -- the most recently used; no other slot has changed, and the cache still holds no block twice.
    -- If the slot did not hold the block before, it was the least recently used of the slots that
    -- nobody used. `block_get` panics only if no slot holds the block and every slot is in use, and
    -- fails only if the slot to evict is dirty and its device is not mounted.
    pub block_get-Outcome :
        (c : Cache Dev Data) (order : List ℕ) (d n : ℕ)
        → IsCache c order
        → Outcome c order d n (block_get dev_rw now c d n)
    unfolding block_get
    block_get-Outcome c order d n v =
        get_from-Outcome c order d n v _
          (walk_back num_blocks c.links (asked c d n) c.lru order v.queue (omega (arith, v.whole)))
