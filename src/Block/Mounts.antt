-- ===== src/Block/Mounts.antt =====
-- What the block cache leaves of the superblock table: src/fs/block.c over inc/fs/super.h.
use brainix_old.Base.{
  ℕ, zero, suc, ◌+◌, ◌%◌, ◌≡◌, Bool, true, false, not, Option, none, some, ltb, ◌==◌, Bool-cases,
  inl, inr, Whenever, Option-cases, Whenever-if, arith,
}
use brainix_old.Ring.Walk.{ring_walk}
use brainix_old.Super.{Super, super_get}
use brainix_old.Block.Sync.{one, sync_from-none, sync_from-some}
use brainix_old.Block.{
  Cache, Got, got, no_free_blocks, fault, DevRw, touched, touch, transfer, block_rw, hit, read_in,
  evict, miss, get_from, block_get, block_put, set_block, recently_used, sync_from, dev_sync,
  purge_from, dev_purge, num_blocks,
}

-- Which device is mounted, where, and its root directory.
abbrev pub entry : Super → ℕ × (Option ℕ × Option ℕ)
entry s = (s.dev, (s.mount_point, s.root_dir))

module _ {Dev Data : Type 0} (u : ℕ → ℕ × (Option ℕ × Option ℕ)) where
  -- The slots of the superblock table are taken as u says.
  abbrev pub Mounts : Cache Dev Data → Type 0
  Mounts c = (j : ℕ) → entry (c.supers j) ≡ u j

  touch-Mounts :
      (now : ℕ) (c : Cache Dev Data) (sp : Option ℕ) → Mounts c → Whenever Mounts (touch now c sp)
  unfolding touch touched
  touch-Mounts now c none h = tt
  touch-Mounts now c (some sp) h = λ j. elim (Bool-cases (j == sp)) [
    | inl e ↦ let same : j ≡ sp = ground arith in rw (e, same) (h sp)
    | inr e ↦ rw e (h j)
  ]

  module _ (dev_rw : DevRw Dev Data) (now : ℕ) where
    pub block_rw-Mounts :
        (c : Cache Dev Data) (k : ℕ) (read : Bool)
        → Mounts c
        → Whenever Mounts (block_rw dev_rw now c k read)
    unfolding block_rw transfer
    block_rw-Mounts c k read h = Whenever-if Mounts (not (c.block k).dirty) _ _ h (
        Whenever-if Mounts read _ _ h
          (touch-Mounts now (transfer dev_rw now c k read) (super_get c.supers (c.block k).dev) h))

    abbrev pub GotMounts : Got Dev Data → Type 0
    GotMounts (got k c) = Mounts c
    GotMounts no_free_blocks = Unit
    GotMounts fault = Unit

    read_in-Mounts :
        (c : Option (Cache Dev Data)) (k : ℕ)
        → Whenever Mounts c
        → GotMounts (read_in dev_rw now c k)
    unfolding read_in recently_used
    read_in-Mounts none k h = tt
    read_in-Mounts (some c) k h = h

    evict-Mounts :
        (c : Option (Cache Dev Data)) (k d n : ℕ)
        → Whenever Mounts c
        → GotMounts (evict dev_rw now c k d n)
    unfolding evict
    evict-Mounts none k d n h = tt
    evict-Mounts (some c) k d n h = read_in-Mounts _ k (block_rw-Mounts _ k true h)

    get_from-Mounts :
        (c : Cache Dev Data) (d n : ℕ) (at : Option ℕ)
        → Mounts c
        → GotMounts (get_from dev_rw now c d n at)
    unfolding get_from hit miss recently_used
    get_from-Mounts c d n (some k) h = h
    get_from-Mounts c d n none h =
        missed (ring_walk num_blocks c.links.next (λ k. (c.block k).count == 0) c.lru c.lru)
      where
        missed : (at : Option ℕ) → GotMounts (miss dev_rw now c d n at)
        missed none = tt
        missed (some k) = evict-Mounts _ k d n (block_rw-Mounts c k false h)

    pub block_get-Mounts :
        (c : Cache Dev Data) (d n : ℕ) → Mounts c → GotMounts (block_get dev_rw now c d n)
    unfolding block_get
    block_get-Mounts c d n h = get_from-Mounts c d n _ h

    pub block_put-Mounts :
        (c : Cache Dev Data) (k : Option ℕ) (robust : ℕ) (important : Bool)
        → Mounts c
        → Whenever Mounts (block_put dev_rw now c k robust important)
    unfolding block_put
    block_put-Mounts c none robust important h = h
    block_put-Mounts c (some k) robust important h =
        let b = c.block k in
        let count = (b.count + 255) % 256 in
        let c' = set_block c k (record b { count = count }) in
        Whenever-if Mounts (ltb 0 count) _ _ h (
          Whenever-if Mounts (robust == 2) _ _ (block_rw-Mounts c' k false h) (
            Whenever-if Mounts (robust == 1) _ _
              (Whenever-if Mounts important (block_rw dev_rw now c' k false) (some c')
                (block_rw-Mounts c' k false h) h)
              h))

    sync_from-Mounts :
        (d k n : ℕ) (c : Cache Dev Data) → Mounts c → Whenever Mounts (sync_from dev_rw now d k n c)
    unfolding sync_from
    sync_from-Mounts d k zero c h = h
    sync_from-Mounts d k (suc n) c h =
        let h' : Whenever Mounts (one dev_rw now d c k) =
          Whenever-if Mounts ((c.block k).dev == d) _ _ (block_rw-Mounts c k false h) h in
        elim (Option-cases (one dev_rw now d c k)) [
          | inl e ↦ rw (sync_from-none dev_rw now d k n c e) tt
          | inr (c', e) ↦
              rw (sync_from-some dev_rw now d k n c c' e)
                (sync_from-Mounts d (k + 1) n c' (rw e at h'))
        ]

    pub dev_sync-Mounts :
        (c : Cache Dev Data) (d : ℕ) → Mounts c → Whenever Mounts (dev_sync dev_rw now c d)
    unfolding dev_sync
    dev_sync-Mounts c d h = sync_from-Mounts d 0 num_blocks c h

  purge_from-Mounts : (d k n : ℕ) (c : Cache Dev Data) → Mounts c → Mounts (purge_from d k n c)
  unfolding purge_from recently_used
  purge_from-Mounts d k zero c h = h
  purge_from-Mounts d k (suc n) c h =
      purge_from-Mounts d (k + 1) n _
        (elim (Bool-cases ((c.block k).dev == d)) [ inl e ↦ rw e h | inr e ↦ rw e h ])

  pub dev_purge-Mounts : (c : Cache Dev Data) (d : ℕ) → Mounts c → Mounts (dev_purge c d)
  unfolding dev_purge
  dev_purge-Mounts c d h = purge_from-Mounts d 0 num_blocks c h
