-- ===== src/Inode/Mounts.antt =====
-- What the operations on inodes leave of the superblock table: src/fs/inode.c and src/fs/group.c
-- over src/fs/block.c.
use brainix_old.Base.{
  ℕ, zero, suc, ◌+◌, ◌-◌, ◌*◌, ◌/◌, ◌%◌, ◌^◌, Bool, true, false, ◌&&◌, ◌||◌, not, Option, none,
  some, ltb, ◌==◌, if◌then◌else◌, >>=-Whenever, Whenever, Whenever-bind, Whenever-if,
}
use brainix_old.Base.Table.{first_where}
use brainix_old.Super.{super_get, s_inode_size, s_inodes_per_group}
use brainix_old.Block.{Cache, Got, got, no_free_blocks, fault, DevRw, block_get, block_put}
use brainix_old.Block.Mounts.{Mounts, GotMounts, block_get-Mounts, block_put-Mounts}
use brainix_old.Inode.{
  Fs, Bytes, num_inodes, set_inode, gotten, changed, robust, with_block, group_find, inode_rw,
  take_free, get_from, inode_get, inode_put, descend, raise, block_find, word, copied, place,
  on_device,
}

module _ {Dev : Type 0} (u : ℕ → ℕ × (Option ℕ × Option ℕ)) (dev_rw : DevRw Dev Bytes)
    (now : ℕ) where
  abbrev pub Kept {ℓ} : {A : Type ℓ} → A × Cache Dev Bytes → Type 0
  Kept r = Mounts u r.1

  abbrev pub KeptIn : Fs Dev → Type 0
  KeptIn s = Mounts u s.cache

  pub gotten-Kept : (g : Got Dev Bytes) → GotMounts u dev_rw now g → Whenever Kept (gotten g)
  gotten-Kept (got k c) h = h
  gotten-Kept no_free_blocks h = tt
  gotten-Kept fault h = tt

  pub changed-Mounts :
      (c : Cache Dev Bytes) (k : ℕ) (f : Option (Bytes → Bytes))
      → Mounts u c
      → Mounts u (changed c k f)
  changed-Mounts c k none h = h
  changed-Mounts c k (some f) h = h

  pub with_block-Kept :
      (c : Cache Dev Bytes) (d blk : ℕ) (change : Option (Bytes → Bytes))
      → Mounts u c
      → Whenever Kept (with_block dev_rw now c d blk change)
  unfolding with_block
  with_block-Kept c d blk change h =
      Whenever-bind Kept Kept (gotten (block_get dev_rw now c d blk)) _
        (gotten-Kept (block_get dev_rw now c d blk) (block_get-Mounts u dev_rw now c d blk h))
        λ slot k.
          Whenever-bind (Mounts u) Kept
            (block_put dev_rw now (changed slot.1 slot.0 change) (some slot.0) robust true) _
            (block_put-Mounts u dev_rw now (changed slot.1 slot.0 change) (some slot.0) robust true
              (changed-Mounts slot.1 slot.0 change k))
            λ c' k'. k'

  group_find-Kept :
      (c : Cache Dev Bytes) (d ino : ℕ)
      → Mounts u c
      → Whenever (λ r. Mounts u r.1.1) (group_find dev_rw now c d ino)
  unfolding group_find
  group_find-Kept c d ino h =
      >>=-Whenever (λ r. Mounts u r.1.1) (super_get c.supers d) _
        λ sp.
          Whenever-bind Kept (λ r. Mounts u r.1.1) (with_block dev_rw now c d 2 none) _
            (with_block-Kept c d 2 none h)
            λ table k.
              let per_group = s_inodes_per_group (c.supers sp) in
              let size = s_inode_size (table.1.supers sp) in
              let per_block = (table.1.supers sp).block_size / size in
              let n = (ino + 2 ^ 32 - 1) % 2 ^ 32 in
              Whenever-if (λ (r : ℕ × (ℕ × Cache Dev Bytes)). Mounts u r.1.1)
                ((per_group == 0) || (size == 0) || (per_block == 0)) none
                (some (
                  place (word table.0 (n / per_group * 32 + 8)) (n % per_group) per_block size
                    table.1))
                tt k

  pub inode_rw-Kept :
      (s : Fs Dev) (k : ℕ) (read : Bool) → KeptIn s → Whenever KeptIn (inode_rw dev_rw now s k read)
  unfolding inode_rw
  inode_rw-Kept s k read h =
      let i = s.inode k in
      Whenever-if KeptIn (not i.dirty) _ _ h (
        Whenever-bind (λ r. Mounts u r.1.1) KeptIn (group_find dev_rw now s.cache i.dev i.ino) _
          (group_find-Kept s.cache i.dev i.ino h)
          λ at g. >>=-Whenever KeptIn (super_get s.cache.supers i.dev) _ λ sp.
            Whenever-bind Kept KeptIn (with_block dev_rw now at.1.1 i.dev at.0 _) _
              (with_block-Kept at.1.1 i.dev at.0 _ g)
              λ done w.
                let size = s_inode_size (s.cache.supers sp) in
                let raw = (if read then copied i.raw done.0 0 at.1.0 size else i.raw) in
                Whenever-if KeptIn (ltb on_device size) none
                  (some (record (set_inode s k (record i { raw = raw; dirty = false })) {
                    cache = done.1;
                  }))
                  tt w)

  pub inode_put-Kept :
      (s : Fs Dev) (k : Option ℕ) → KeptIn s → Whenever KeptIn (inode_put dev_rw now s k)
  unfolding inode_put
  inode_put-Kept s none h = h
  inode_put-Kept s (some k) h =
      Whenever-if KeptIn (ltb 0 (((s.inode k).count + 255) % 256)) _ _ h
        (inode_rw-Kept (set_inode s k _) k false h)

  pub inode_get-Kept :
      (s : Fs Dev) (d ino : ℕ)
      → KeptIn s
      → Whenever (λ r. KeptIn r.1) (inode_get dev_rw now s d ino)
  unfolding inode_get get_from take_free
  inode_get-Kept s d ino h =
      from (first_where (λ k. ((s.inode k).dev == d) && ((s.inode k).ino == ino)) 0 num_inodes)
    where
      taken : (at : Option ℕ) → Whenever (λ r. KeptIn r.1) (take_free dev_rw now s d ino at)
      taken none = tt
      taken (some k) =
          Whenever-bind KeptIn (λ r. KeptIn r.1) (inode_rw dev_rw now (set_inode s k _) k true) _
            (inode_rw-Kept (set_inode s k _) k true h) λ t g. g

      from : (at : Option ℕ) → Whenever (λ r. KeptIn r.1) (get_from dev_rw now s d ino at)
      from none = taken (first_where (λ k. (s.inode k).count == 0) 0 num_inodes)
      from (some k) = h

  descend-Kept :
      (fuel : ℕ) (c : Cache Dev Bytes) (d blk ni n div : ℕ)
      → Mounts u c
      → Whenever Kept (descend dev_rw now fuel c d blk ni n div)
  unfolding descend
  descend-Kept zero c d blk ni n div h = tt
  descend-Kept (suc fuel) c d blk ni n div h = Whenever-if Kept (div == 0) none _ tt (
      Whenever-bind Kept Kept (with_block dev_rw now c d blk none) _
        (with_block-Kept c d blk none h)
        λ b k.
          Whenever-if Kept (ltb n ni) _ _ k (descend-Kept fuel b.1 d _ ni (n % div) (div / ni) k))

  pub block_find-Kept :
      (fuel : ℕ) (s : Fs Dev) (k n : ℕ)
      → KeptIn s
      → Whenever Kept (block_find dev_rw now fuel s k n)
  unfolding block_find
  block_find-Kept fuel s k n h =
      >>=-Whenever Kept (super_get s.cache.supers (s.inode k).dev) _ λ sp.
        Whenever-if Kept (ltb n 12) _ _ h (
          >>=-Whenever Kept (raise fuel _ (n - 12) 1) _
            λ div. descend-Kept fuel s.cache (s.inode k).dev _ _ (n - 12) div h)
