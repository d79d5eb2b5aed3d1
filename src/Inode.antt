-- ===== src/Inode.antt =====
-- The inode table: src/fs/inode.c, with group_find of src/fs/group.c, over the block cache. An
-- `inode_t *` is an index into `inode[NUM_INODES]`. The part of an inode that resides on the device
-- is kept as its 128 bytes, and so is a block; the fields are read from and written to these bytes.
-- `now` is what do_time() returns. No result is a panic, a dereference of NULL, a division by zero,
-- or a copy past the 128 bytes.
pub mod Disk
pub mod Find
pub mod Table
pub mod Accesses
pub mod Blocks
pub mod Ready
pub mod Uses
pub mod Mounts
pub mod Tests
use brainix_old.Base.{
  ℕ, zero, suc, ◌+◌, ◌-◌, ◌*◌, ◌/◌, ◌%◌, ◌^◌, Bool, true, false, ◌&&◌, ◌||◌, not, Option, none,
  some, ltb, leb, ◌==◌, if◌then◌else◌, update, ◌>>=◌,
}
use brainix_old.Base.Table.{first_where}
pub use brainix_old.Base.Bytes.{Bytes, half, word, set_word, copied}
use brainix_old.Super.{Super, Supers, super_get, no_dev, s_inode_size, s_inodes_per_group}
use brainix_old.Block.{
  Cache, Block, Got, got, no_free_blocks, fault, DevRw, block_get, block_put, set_block,
}

abbrev pub num_inodes : ℕ
num_inodes = 64

abbrev pub group_block : ℕ
group_block = 2

-- SLOPPY
abbrev pub robust : ℕ
robust = 0

abbrev pub noatime : ℕ
noatime = 128

-- The size of the fields of `inode_t` that reside on the device.
abbrev pub on_device : ℕ
on_device = 128

pub record Inode : Type 0 where
  pub raw : Bytes
  pub dev : ℕ
  pub ino : ℕ
  pub count : ℕ
  pub mounted : Bool
  pub dirty : Bool

abbrev pub i_mode : Inode → ℕ
i_mode i = half i.raw 0

abbrev pub i_uid : Inode → ℕ
i_uid i = half i.raw 2

abbrev pub i_gid : Inode → ℕ
i_gid i = half i.raw 24

abbrev pub i_flags : Inode → ℕ
i_flags i = word i.raw 32

abbrev pub i_block : Inode → ℕ → ℕ
i_block i n = word i.raw (40 + 4 * n)

-- The masks of `is_blk`, `is_dir` and `is_chr`: the four highest bits of `i_mode`.
abbrev pub has_format : ℕ → Option Inode → Bool
has_format f none = false
has_format f (some i) = i_mode i / 4096 == f

unfoldable pub is_blk : Option Inode → Bool
is_blk = has_format 6

unfoldable pub is_dir : Option Inode → Bool
is_dir = has_format 4

unfoldable pub is_chr : Option Inode → Bool
is_chr = has_format 2

-- The last lines of `group_find`: `table` is the first block of the inode table, and `index` the
-- number of the inode in its group.
abbrev pub place {ℓ} : {C : Type ℓ} → (table index per_block size : ℕ) → C → ℕ × (ℕ × C)
place table index per_block size c = (table + index / per_block, (index % per_block * size, c))

-- Whether the n-th block is one of the `num` that start at `sub`: a difference of 32-bit words.
abbrev pub within : (sub num n : ℕ) → Bool
within sub num n = ltb ((n + 2 ^ 32 - sub) % 2 ^ 32) num

-- The three tests of `block_find`; a later one overrides an earlier one.
abbrev pub indirect_block : Inode → (ni n : ℕ) → ℕ
indirect_block i ni n =
    if within (12 + ni + ni * ni) (ni * ni * ni) n
    then i_block i 14
    else if within (12 + ni) (ni * ni) n
    then i_block i 13
    else if within 12 ni n
    then i_block i 12
    else 0

-- The loop that finds the first divisor.
unfoldable pub raise : (fuel ni n div : ℕ) → Option ℕ
raise zero ni n div = none
raise (suc fuel) ni n div =
    let rest = raise fuel ni n (div * ni % 2 ^ 32) in
    if leb (div * ni % 2 ^ 32) n then rest else some div

pub record Fs (Dev : Type 0) : Type 0 where
  pub inode : ℕ → Inode
  pub cache : Cache Dev Bytes

module _ {Dev : Type 0} where
  abbrev pub set_inode : Fs Dev → ℕ → Inode → Fs Dev
  set_inode s k i = record s { inode = update s.inode k i }

  unfoldable pub inode_init : Fs Dev → Fs Dev
  inode_init s = record s {
    inode = λ k.
        if ltb k num_inodes
        then record (s.inode k) { dev = no_dev; ino = 0; count = 0; mounted = false; dirty = false }
        else s.inode k;
  }

  abbrev pub gotten : Got Dev Bytes → Option (ℕ × Cache Dev Bytes)
  gotten (got k c) = some (k, c)
  gotten no_free_blocks = none
  gotten fault = none

  abbrev pub changed : Cache Dev Bytes → ℕ → Option (Bytes → Bytes) → Cache Dev Bytes
  changed c k none = c
  changed c k (some f) =
      set_block c k (record (c.block k) { contents = f (c.block k).contents; dirty = true })

  module _ (dev_rw : DevRw Dev Bytes) (now : ℕ) where
    -- A block is got, changed or only read, and put.
    unfoldable pub with_block :
        Cache Dev Bytes → (d blk : ℕ) → Option (Bytes → Bytes) → Option (Bytes × Cache Dev Bytes)
    with_block c d blk change = do
      slot ← gotten (block_get dev_rw now c d blk)
      let b = slot.1.block slot.0
      let c1 = changed slot.1 slot.0 change
      c2 ← block_put dev_rw now c1 (some slot.0) robust true
      some (b.contents, c2)

    -- The first block of the inode table of a group is the word at 8 of its 32-byte descriptor.
    -- The result: the inode's block, its offset there, and the cache.
    unfoldable pub group_find : Cache Dev Bytes → (d ino : ℕ) → Option (ℕ × (ℕ × Cache Dev Bytes))
    group_find c d ino = do
      sp ← super_get c.supers d
      let per_group = s_inodes_per_group (c.supers sp)
      let n = (ino + 2 ^ 32 - 1) % 2 ^ 32
      table ← with_block c d group_block none
      let size = s_inode_size (table.1.supers sp)
      let per_block = (table.1.supers sp).block_size / size
      if (per_group == 0) || (size == 0) || (per_block == 0)
          then none
          else some
              (place (word table.0 (n / per_group * 32 + 8)) (n % per_group) per_block size table.1)

    -- The superblock's size of an inode is read where nothing has changed it yet.
    unfoldable pub inode_rw : Fs Dev → ℕ → (read : Bool) → Option (Fs Dev)
    inode_rw s k read =
        let i = s.inode k in
        if not i.dirty then some s else do
          where_is ← group_find s.cache i.dev i.ino
          sp ← super_get s.cache.supers i.dev
          let size = s_inode_size (s.cache.supers sp)
          let write = λ (b : Bytes). copied b i.raw where_is.1.0 0 size
          done ← with_block where_is.1.1 i.dev where_is.0 (if read then none else some write)
          let raw = (if read then copied i.raw done.0 0 where_is.1.0 size else i.raw)
          if ltb on_device size
              then none
              else some (record (set_inode s k (record i { raw = raw; dirty = false })) {
                cache = done.1;
              })

    pub take_free : Fs Dev → (d ino : ℕ) → Option ℕ → Option (ℕ × Fs Dev)
    take_free s d ino none = none
    take_free s d ino (some k) = do
      s' ←
          inode_rw
            (set_inode s k
              (record (s.inode k) { dev = d; ino = ino; count = 1; mounted = false; dirty = true }))
            k true
      some (k, s')

    pub get_from : Fs Dev → (d ino : ℕ) → Option ℕ → Option (ℕ × Fs Dev)
    unfolding take_free
    get_from s d ino none =
        take_free s d ino (first_where (λ k. (s.inode k).count == 0) 0 num_inodes)
    get_from s d ino (some k) =
        some (k, set_inode s k (record (s.inode k) { count = ((s.inode k).count + 1) % 2 ^ 8 }))

    -- A panic has no result.
    unfoldable pub inode_get : Fs Dev → (d ino : ℕ) → Option (ℕ × Fs Dev)
    unfolding get_from
    inode_get s d ino =
        get_from s d ino
          (first_where (λ k. ((s.inode k).dev == d) && ((s.inode k).ino == ino)) 0 num_inodes)

    -- `count` is an unsigned char, and the mask of NOATIME is its bit.
    unfoldable pub inode_put : Fs Dev → Option ℕ → Option (Fs Dev)
    inode_put s none = some s
    inode_put s (some k) =
        let i = record (s.inode k) { count = ((s.inode k).count + 255) % 256 } in
        let used = record i { raw = set_word i.raw 8 now; dirty = true } in
        if ltb 0 i.count
        then some (set_inode s k i)
        else inode_rw (set_inode s k (if i_flags i / noatime % 2 == 1 then i else used)) k false

    -- The loop down the indirect blocks.
    unfoldable pub descend :
        (fuel : ℕ) → Cache Dev Bytes → (d blk ni n div : ℕ) → Option (ℕ × Cache Dev Bytes)
    descend zero c d blk ni n div = none
    descend (suc fuel) c d blk ni n div = if div == 0 then none else do
      block ← with_block c d blk none
      let blk' = word block.0 (4 * (n / div))
      if ltb n ni then some (blk', block.1) else descend fuel block.1 d blk' ni (n % div) (div / ni)

    -- `n` is not negative. The differences of the macros wrap.
    unfoldable pub block_find : (fuel : ℕ) → Fs Dev → (k n : ℕ) → Option (ℕ × Cache Dev Bytes)
    block_find fuel s k n = do
      let i = s.inode k
      sp ← super_get s.cache.supers i.dev
      let ni = (s.cache.supers sp).block_size / 4
      if ltb n 12 then some (i_block i n, s.cache) else do
        div ← raise fuel ni (n - 12) 1
        descend fuel s.cache i.dev (indirect_block i ni n) ni (n - 12) div
