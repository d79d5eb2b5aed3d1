-- ===== src/Block/Flushed.antt =====
-- The device behind the cache after `dev_sync` (src/fs/block.c).
use brainix_old.Base.{
  ℕ, zero, suc, ◌+◌, ◌<◌, ◌≡◌, ◌≢◌, refl, true, false, Option, none, some, List, arith, ◌==◌, mem,
  Bool-cases, Option-cases, inl, inr, Whenever, Whenever-if,
}
use brainix_old.Ring.Walk.{first_of, first_of-some, first_of-none}
use brainix_old.Super.{no_dev}
use brainix_old.Block.{Cache, DevRw, num_blocks, block_off, block_rw, sync_from, dev_sync}
use brainix_old.Block.Cached.{IsCache, IsCache-same, Transferred, block_rw-Transferred}
use brainix_old.Block.Get.{asked}
use brainix_old.Block.Store.{IsStore, block_limit, Contents, block_rw-Contents}
use brainix_old.Block.Sync.{Synced, one, sync_from-none, sync_from-some, dev_sync_lem}

module _ {Dev Data : Type 0} (look : Dev → (d off : ℕ) → Data) (dev_rw : DevRw Dev Data) (now : ℕ)
    (store : IsStore dev_rw look) (order : List ℕ) (m : (d n : ℕ) → Data) (d : ℕ) where
  -- The cache is well formed, and stands for m with its devices.
  abbrev Stands : Cache Dev Data → Type 0
  Stands c = IsCache c order × Contents look c order m

  block_rw-IsCache :
      (c : Cache Dev Data) (k : ℕ)
      → IsCache c order
      → (r : Option (Cache Dev Data)) → Transferred c k r
      → Whenever (λ c'. IsCache c' order) r
  block_rw-IsCache c k v none t = tt
  block_rw-IsCache c k v (some c') t =
      IsCache-same c c' order t.0 t.1
        (λ j. elim (Bool-cases (j == k)) [
          | inl e ↦ let e' : j ≡ k = ground arith in rw e' t.3
          | inr e ↦ rw (t.2 j (ground arith)) refl
        ])
        (λ j. elim (Bool-cases (j == k)) [
          | inl e ↦ let e' : j ≡ k = ground arith in rw e' t.4
          | inr e ↦ rw (t.2 j (ground arith)) refl
        ])
        v

  both :
      (r : Option (Cache Dev Data))
      → Whenever (λ c. IsCache c order) r
      → Whenever (λ c. Contents look c order m) r
      → Whenever Stands r
  both none v h = tt
  both (some c) v h = (v, h)

  one-Stands :
      (c : Cache Dev Data) (k : ℕ)
      → mem k order ≡ true
      → Stands c
      → Whenever Stands (one dev_rw now d c k)
  one-Stands c k i s =
      Whenever-if Stands ((c.block k).dev == d) (block_rw dev_rw now c k false) (some c)
        (both (block_rw dev_rw now c k false)
          (block_rw-IsCache c k s.0 (block_rw dev_rw now c k false)
            (block_rw-Transferred dev_rw now c k false))
          (block_rw-Contents look dev_rw now store c order m k s.0 i s.1))
        s

  -- Every slot of the table is in the list.
  abbrev pub AllListed : Type 0
  AllListed = (k : ℕ) → k < num_blocks → mem k order ≡ true

  sync_from-Stands :
      (k n : ℕ) (c : Cache Dev Data)
      → AllListed
      → k + n ≡ num_blocks
      → Stands c
      → Whenever Stands (sync_from dev_rw now d k n c)
  sync_from-Stands k zero c all h s = unfold sync_from in s
  sync_from-Stands k (suc n) c all h s = elim (Option-cases (one dev_rw now d c k)) [
    | inl e ↦ rw (sync_from-none dev_rw now d k n c e) tt
    | inr (c1, e) ↦
        let s1 : Stands c1 = rw e at (one-Stands c k (all k (omega arith)) s) in
        rw (sync_from-some dev_rw now d k n c c1 e)
          (sync_from-Stands (k + 1) n c1 all (omega arith) s1)
  ]

  -- The device has each block as m has it, and every slot holds the block that it held; or a block
  -- of the device is dirty, and could not be written.
  abbrev pub Flushed : Cache Dev Data → Option (Cache Dev Data) → Type 0
  Flushed c none = (k : ℕ) × (k < num_blocks) × ((c.block k).dev ≡ d) × ((c.block k).dirty ≡ true)
  Flushed c (some c') =
      ((j : ℕ) → ((c'.block j).dev ≡ (c.block j).dev) × ((c'.block j).blk ≡ (c.block j).blk))
      × ((n : ℕ) → n < block_limit → look c'.device d (block_off n) ≡ m d n)

  Synced-Flushed :
      (c : Cache Dev Data)
      → d ≢ no_dev
      → (r : Option (Cache Dev Data)) → Synced c d 0 num_blocks r
      → Whenever Stands r
      → Flushed c r
  Synced-Flushed c ne none s w = (s.0, s.2, s.3, s.4)
  Synced-Flushed c ne (some c') s w = (
    s.1,
    λ n lt. elim (Option-cases (first_of (asked c' d n) order)) [
      | inl none_holds ↦ w.1.absent d n ne lt λ j mj at.
          let no = first_of-none (asked c' d n) j order none_holds mj in absurd (ground arith)
      | inr (k, e) ↦
          let f = first_of-some (asked c' d n) k order e in
          let same_dev : (c'.block k).dev ≡ d = ground (arith, f.1) in
          let same_blk : (c'.block k).blk ≡ n = ground (arith, f.1) in
          let clean = s.2 k (omega arith) (w.0.in_table k f.0) same_dev in
          rw (same_dev, same_blk) at (w.1.clean k f.0 (rw same_dev ne) clean)
    ],
  )

  -- After `dev_sync` of a device that keeps what is written, the device itself has each block as the
  -- cache and the devices had it together before, as far as offsets are less than 2 ^ 32, and every
  -- slot of the cache still holds the block that it held. It fails only if a block of the device
  -- is dirty. Every slot of the table must be in the list.
  pub dev_sync-Flushed :
      (c : Cache Dev Data)
      → d ≢ no_dev
      → AllListed
      → IsCache c order
      → Contents look c order m
      → Flushed c (dev_sync dev_rw now c d)
  dev_sync-Flushed c ne all v h =
      Synced-Flushed c ne (dev_sync dev_rw now c d) (dev_sync_lem dev_rw now d c)
        (unfold dev_sync in sync_from-Stands 0 num_blocks c all refl (v, h))
