-- ===== src/Block/Cached.antt =====
-- What holds of the cache between operations, and what reading or writing a block leaves alone.
use brainix_old.Base.{
  ℕ, ◌<◌, ◌≡◌, ◌≢◌, refl, Bool, true, false, Option, none, some, List, arith, mem, Bool-cases, inl,
  inr, if◌then◌else◌, length,
}
use brainix_old.Ring.Queue.{IsQueue}
use brainix_old.Super.{super_get, no_dev}
use brainix_old.Block.{Cache, DevRw, num_blocks, block_rw, touch, transfer}

module _ {Dev Data : Type 0} where
  -- `order` is the cache from the least to the most recently used block. Each block of the table
  -- is in it once, and no two blocks of the cache hold the same block of a device.
  pub record IsCache (c : Cache Dev Data) (order : List ℕ) : Type 0 where
    pub queue : IsQueue c.links (some c.lru) order
    pub in_table : (k : ℕ) → mem k order ≡ true → k < num_blocks
    pub whole : length order ≡ num_blocks
    pub unique :
        (j k : ℕ)
        → mem j order ≡ true
        → mem k order ≡ true
        → (c.block j).dev ≢ no_dev
        → (c.block j).dev ≡ (c.block k).dev
        → (c.block j).blk ≡ (c.block k).blk
        → j ≡ k

  pub IsCache-same :
      (c c' : Cache Dev Data) (order : List ℕ)
      → c'.links ≡ c.links
      → c'.lru ≡ c.lru
      → ((j : ℕ) → (c'.block j).dev ≡ (c.block j).dev)
      → ((j : ℕ) → (c'.block j).blk ≡ (c.block j).blk)
      → IsCache c order
      → IsCache c' order
  IsCache-same c c' order el eh ed eb v = record {
    queue = rw (el, eh) v.queue;
    in_table = v.in_table;
    whole = v.whole;
    unique = λ j k mj mk. rw (ed j, ed k, eb j, eb k) (v.unique j k mj mk);
  }

  block_rw_dirty :
      (dev_rw : DevRw Dev Data) (now : ℕ) (c : Cache Dev Data) (k : ℕ) (read : Bool)
      → (c.block k).dirty ≡ true
      → block_rw dev_rw now c k read ≡ (
          if read
          then some (transfer dev_rw now c k read)
          else touch now
              (transfer dev_rw now c k read)
              (super_get (transfer dev_rw now c k read).supers (c.block k).dev))
  unfolding block_rw
  block_rw_dirty dev_rw now c k read e = rw e

  pub block_rw_clean :
      (dev_rw : DevRw Dev Data) (now : ℕ) (c : Cache Dev Data) (k : ℕ) (read : Bool)
      → (c.block k).dirty ≡ false
      → block_rw dev_rw now c k read ≡ some c
  unfolding block_rw
  block_rw_clean dev_rw now c k read e = rw e

  -- What stays when a block is read or written: everything but the contents and the dirty flag of
  -- that block, the superblocks and the devices. NULL is dereferenced only for a dirty block of a
  -- device that is not mounted.
  abbrev pub Transferred : Cache Dev Data → ℕ → Option (Cache Dev Data) → Type 0
  Transferred c k none = ((c.block k).dirty ≡ true) × (super_get c.supers (c.block k).dev ≡ none)
  Transferred c k (some c') =
      (c'.links ≡ c.links)
      × (c'.lru ≡ c.lru)
      × ((j : ℕ) → j ≢ k → c'.block j ≡ c.block j)
      × ((c'.block k).dev ≡ (c.block k).dev)
      × ((c'.block k).blk ≡ (c.block k).blk)
      × ((c'.block k).count ≡ (c.block k).count)
      × ((c'.block k).dirty ≡ false)

  touch-Transferred :
      (now : ℕ) (c c' : Cache Dev Data) (k : ℕ) (s : Option ℕ)
      → Transferred c k (some c')
      → (c.block k).dirty ≡ true
      → super_get c.supers (c.block k).dev ≡ s
      → Transferred c k (touch now c' s)
  unfolding touch
  touch-Transferred now c c' k none t dirty e = (dirty, e)
  touch-Transferred now c c' k (some s) t dirty e = t

  transfer-Transferred :
      (dev_rw : DevRw Dev Data) (now : ℕ) (c : Cache Dev Data) (k : ℕ) (read : Bool)
      → Transferred c k (some (transfer dev_rw now c k read))
  unfolding transfer
  transfer-Transferred dev_rw now c k read =
      (refl, refl, λ j ne. ground arith, ground arith, ground arith, ground arith, ground arith)

  -- Reading or writing a cached block leaves the other blocks, the order and what the block is as
  -- they are, and the block is clean afterwards; it fails only for a dirty block of a device that
  -- is not mounted.
  pub block_rw-Transferred :
      (dev_rw : DevRw Dev Data) (now : ℕ) (c : Cache Dev Data) (k : ℕ) (read : Bool)
      → Transferred c k (block_rw dev_rw now c k read)
  block_rw-Transferred dev_rw now c k read = elim (Bool-cases (c.block k).dirty) [
    | inl e ↦ rw (block_rw_dirty dev_rw now c k read e) (dirty_case read e)
    | inr e ↦
        rw (block_rw_clean dev_rw now c k read e) (refl, refl, λ j ne. refl, refl, refl, refl, e)
  ]
    where
      dirty_case :
          (r : Bool)
          → (c.block k).dirty ≡ true
          → Transferred c k (
              if r
              then some (transfer dev_rw now c k r)
              else touch now
                  (transfer dev_rw now c k r)
                  (super_get (transfer dev_rw now c k r).supers (c.block k).dev))
      dirty_case true e = transfer-Transferred dev_rw now c k true
      dirty_case false e =
          touch-Transferred now c (transfer dev_rw now c k false) k _
            (transfer-Transferred dev_rw now c k false) e (unfold transfer in refl)

  -- Reading a block in never faults.
  pub block_rw_read :
      (dev_rw : DevRw Dev Data) (now : ℕ) (c : Cache Dev Data) (k : ℕ)
      → block_rw dev_rw now c k true ≢ none
  block_rw_read dev_rw now c k e = elim (Bool-cases (c.block k).dirty) [
    | inl d ↦ absurd (let r = block_rw_dirty dev_rw now c k true d in cc)
    | inr d ↦ absurd (let r = block_rw_clean dev_rw now c k true d in cc)
  ]
