-- ===== src/Server/Rw.antt =====
-- Reading and writing files: src/fs/read.c. A buffer is its bytes. No result is a panic, a
-- dereference of NULL, or a copy that passes the end of a block's 1024 bytes; a number of bytes or an
-- offset from 2 ^ 31 on, which is negative in the loop, has none either.
use Prim.Native.Nat.{bit_and}
use brainix_old.Base.{
  ℕ, zero, suc, ◌+◌, ◌-◌, ◌*◌, ◌/◌, ◌%◌, ◌^◌, Bool, true, false, ◌&&◌, ◌||◌, not, Option, none,
  some, ltb, leb, ◌==◌, if◌then◌else◌, update, ◌>>=◌,
}
use brainix_old.Base.Bytes.{Bytes, set_word, copied}
use brainix_old.Base.Int.{ℤ}
use brainix_old.Super.{super_get}
use brainix_old.Block.{block_get, block_put, cached_size}
use brainix_old.Fildes.{ebadf, fildes_to_open_descr, fildes_to_inode}
use brainix_old.Inode.{Fs, gotten, changed, set_inode, is_blk, is_chr, is_dir, block_find, robust}
use brainix_old.Device.{inode_to_dev}
use brainix_old.Perm.{eperm}
use brainix_old.Path.{i_blocks}
use brainix_old.Server.{set_err, Env, State, granted, minus, w_ok}
use brainix_old.Server.Open.{dev_transfer}

abbrev pub r_ok : ℕ
r_ok = 4

abbrev pub o_rdonly : ℕ
o_rdonly = 4

abbrev pub eisdir : ℕ
eisdir = 31

abbrev pub efbig : ℕ
efbig = 22

module _ {Dev : Type 0} (e : Env Dev) where
  abbrev pub wrong : State Dev → Bytes → (err : ℕ) → Option ((ℕ × Bytes) × State Dev)
  wrong s buf err = some ((minus err, buf), set_err s err)

  -- memcpy() between the block and the buffer: what is in the buffer, and the change of the block.
  -- The buffer is filled from `completed` on and read from `index` on, the block the other way round.
  unfoldable pub copy_part :
      (read : Bool)
      → (buf block : Bytes) → (completed index size : ℕ) → Option (Bytes × Option (Bytes → Bytes))
  copy_part read buf block completed index size =
      if ltb cached_size ((if read then index else completed) + size)
      then none
      else if read
      then some (copied buf block completed index size, none)
      else some (buf, some (λ b. copied b buf completed index size))

  -- The loop over the blocks of a file; `dev` is what inode_to_dev() gives for it.
  unfoldable pub rw_blocks :
      (fuel : ℕ)
      → Fs Dev
      → (k dev : ℕ) → (read : Bool) → Bytes
      → (block index completed remaining : ℕ) → Option ((ℕ × Bytes) × Fs Dev)
  rw_blocks fuel s k dev read buf block index completed zero = some ((completed, buf), s)
  rw_blocks zero s k dev read buf block index completed (suc rest) = none
  rw_blocks (suc fuel) s k dev read buf block index completed (suc rest) = do
    blk ← block_find e.dev_rw e.now e.deep s k block
    b ← gotten (block_get e.dev_rw e.now blk.1 dev blk.0)
    let size = (if ltb (suc rest) cached_size then suc rest else cached_size)
    part ← copy_part read buf (b.1.block b.0).contents completed index size
    c ← block_put e.dev_rw e.now (changed b.1 b.0 part.1) (some b.0) robust false
    rw_blocks fuel (record s { cache = c }) k dev read part.0 (block + 1) 0 (completed + size)
        (suc rest - size)

  -- The file's offset, and the times that a write changes.
  unfoldable pub rw_done :
      (read : Bool) → (p k completed : ℕ) → Bytes → State Dev → Option ((ℕ × Bytes) × State Dev)
  rw_done read p k completed buf s =
      let f = s.files.file_ptr p in
      let t = record s {
        files = record s.files {
          file_ptr =
              update s.files.file_ptr p (record f { offset = (f.offset + completed) % 2 ^ 32 });
        };
      } in
      let i = t.fs.inode k in
      if read then some ((completed, buf), t) else do
        sp ← super_get t.fs.cache.supers i.dev
        let x = t.fs.cache.supers sp
        let x' = record x { raw = set_word x.raw 48 e.now; dirty = true }
        let fs' = set_inode t.fs k (record i { raw = set_word i.raw 16 e.now })
        some (
          (completed, buf),
          record t {
            fs = record fs' { cache = record fs'.cache { supers = update fs'.cache.supers sp x' } };
          },
        )

  -- What follows the transfer from or to a device.
  pub rw_device :
      (read : Bool) → (p k : ℕ) → (ℕ × Bytes) × State Dev → Option ((ℕ × Bytes) × State Dev)
  rw_device read p k ((size, buf), t) =
      if not (t.fs.cache.err_code == 0)
      then some ((minus t.fs.cache.err_code, buf), t)
      else rw_done read p k size buf t

  -- The tests before the transfer. The mask of the mode is `O_RDWR | read ? O_RDONLY : O_WRONLY`,
  -- which is O_RDONLY in both cases.
  pub rw_checked :
      (read : Bool) → (p k : ℕ) → Bytes → (nbyte : ℕ) → State Dev → Option ((ℕ × Bytes) × State Dev)
  unfolding rw_device
  rw_checked read p k buf nbyte s =
      let f = s.files.file_ptr p in
      let i = s.fs.inode k in
      let special = is_blk (some i) || is_chr (some i) in
      let dev = inode_to_dev (some i) in
      if not (granted e s k (if read then r_ok else w_ok))
      then wrong s buf eperm
      else if read && is_dir (some i)
      then wrong s buf eisdir
      else if not read && ltb (i_blocks i * 1024 % 2 ^ 32) ((f.offset + nbyte) % 2 ^ 32)
      then wrong s buf efbig
      else if nbyte == 0
      then some ((0, buf), s)
      else if special
      then rw_device read p k (dev_transfer e s dev (is_blk (some i)) read f.offset nbyte buf)
      else if leb (2 ^ 31) nbyte || leb (2 ^ 31) f.offset
      then none
      else do
        r ← rw_blocks nbyte s.fs k dev read buf (f.offset / 1024) (f.offset % 1024) 0 nbyte
        rw_done read p k r.0.0 r.0.1 (record s { fs = r.1 })

  unfoldable pub rw_fildes :
      (read : Bool) → State Dev → ℤ → Bytes → (nbyte : ℕ) → Option ((ℕ × Bytes) × State Dev)
  unfolding rw_checked
  rw_fildes read s fildes buf nbyte = do
    inode_ptr ← fildes_to_inode s.files fildes
    elim (fildes_to_open_descr s.files fildes) [
      | none ↦ wrong s buf ebadf
      | some p ↦
          if bit_and (s.files.file_ptr p).mode o_rdonly == 0
          then wrong s buf eperm
          else elim inode_ptr [
            | none ↦ wrong s buf ebadf
            | some k ↦ rw_checked read p k buf nbyte s
          ]
    ]

  unfoldable pub do_fs_read : State Dev → ℤ → Bytes → (nbyte : ℕ) → Option ((ℕ × Bytes) × State Dev)
  do_fs_read = rw_fildes true

  unfoldable pub do_fs_write :
      State Dev → ℤ → Bytes → (nbyte : ℕ) → Option ((ℕ × Bytes) × State Dev)
  do_fs_write = rw_fildes false
