-- ===== src/Server/Disk.antt =====
-- Superblocks read and written, and everything written back: super_read and super_write of
-- src/fs/super.c, and src/fs/misc.c. No result is a panic or a dereference of NULL.
use brainix_old.Base.{
  ℕ, zero, suc, ◌+◌, true, false, not, Option, none, some, if◌then◌else◌, update, ◌>>=◌,
}
use brainix_old.Base.Bytes.{Bytes, copied}
use brainix_old.Super.{Super, num_supers, super_get, no_dev}
use brainix_old.Block.{Cache, block_get, block_put, block_rw, num_blocks}
use brainix_old.Inode.{Fs, num_inodes, robust, gotten, changed, with_block, inode_rw}
use brainix_old.Server.{Env, State}

abbrev pub super_block : ℕ
super_block = 1

-- offsetof(super_t, dev)
abbrev pub super_size : ℕ
super_size = 204

module _ {Dev : Type 0} (e : Env Dev) where
  abbrev pub set_super : Cache Dev Bytes → ℕ → Super → Cache Dev Bytes
  set_super c sp x = record c { supers = update c.supers sp x }

  -- The inner result is none for NULL.
  unfoldable pub super_read : Cache Dev Bytes → (dev : ℕ) → Option (Option ℕ × Cache Dev Bytes)
  super_read c dev = elim (super_get c.supers no_dev) [
    | none ↦ some (none, c)
    | some sp ↦ do
      b ← with_block e.dev_rw e.now c dev super_block none
      let x = b.1.supers sp
      some (some sp, set_super b.1 sp (record x { raw = copied x.raw b.0 0 0 super_size }))
  ]

  unfoldable pub super_write : Cache Dev Bytes → (sp : ℕ) → Option (Cache Dev Bytes)
  super_write c sp = if not (c.supers sp).dirty then some c else do
    b ← gotten (block_get e.dev_rw e.now c (c.supers sp).dev super_block)
    let write = λ (d : Bytes). copied d (b.1.supers sp).raw 0 0 super_size
    t ← block_put e.dev_rw e.now (changed b.1 b.0 (some write)) (some b.0) robust true
    some (set_super t sp (record (t.supers sp) { dirty = false }))

  abbrev pub cache : State Dev → Cache Dev Bytes
  cache s = s.fs.cache

  abbrev pub with_cache : State Dev → Cache Dev Bytes → State Dev
  with_cache s c = record s { fs = record s.fs { cache = c } }

  abbrev pub with_super : State Dev → ℕ → Super → State Dev
  with_super s sp x = with_cache s (set_super (cache s) sp x)

  abbrev pub super_of : State Dev → ℕ → Super
  super_of s sp = (cache s).supers sp

  -- The three loops of `do_fs_sync`, from k on, n rounds.
  unfoldable pub sync_supers : (k n : ℕ) → Cache Dev Bytes → Option (Cache Dev Bytes)
  sync_supers k zero c = some c
  sync_supers k (suc n) c = super_write c k >>= sync_supers (k + 1) n

  unfoldable pub sync_inodes : (k n : ℕ) → Fs Dev → Option (Fs Dev)
  sync_inodes k zero s = some s
  sync_inodes k (suc n) s = inode_rw e.dev_rw e.now s k false >>= sync_inodes (k + 1) n

  unfoldable pub sync_blocks : (k n : ℕ) → Cache Dev Bytes → Option (Cache Dev Bytes)
  sync_blocks k zero c = some c
  sync_blocks k (suc n) c = block_rw e.dev_rw e.now c k false >>= sync_blocks (k + 1) n

  unfoldable pub do_fs_sync : State Dev → Option (State Dev)
  do_fs_sync s = do
    c ← sync_supers 0 num_supers (cache s)
    f ← sync_inodes 0 num_inodes (record s.fs { cache = c })
    c' ← sync_blocks 0 num_blocks f.cache
    some (record s { fs = record f { cache = c' } })
