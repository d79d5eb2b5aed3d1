-- ===== src/Server/Mount.antt =====
-- File systems mounted and unmounted: src/fs/mount.c, and fs_register of src/fs/device.c. No result is a
-- panic, a dereference of NULL, or a path that does not fit in s_last_mounted.
use brainix_old.Base.{
  ℕ, zero, suc, ◌+◌, ◌-◌, ◌*◌, ◌/◌, ◌%◌, ◌^◌, Bool, true, false, ◌&&◌, ◌||◌, not, Option, none,
  some, [], ◌∷◌, length, ltb, ◌==◌, if◌then◌else◌, update, ◌>>=◌,
}
use brainix_old.Base.Bytes.{Bytes, half, word, set_half, set_word}
use brainix_old.Base.Table.{first_where}
use brainix_old.Super.{Super, num_supers, super_get, no_dev}
use brainix_old.Block.{dev_sync, dev_purge}
use brainix_old.Fildes.{enfile, einval}
use brainix_old.Inode.{Fs, num_inodes, set_inode, is_blk, is_dir, inode_get}
use brainix_old.Device.{maj_min_to_dev, inode_to_dev, fs_register}
use brainix_old.Perm.{eacces}
use brainix_old.Path.{Text, Lookup, found, missing, root_ino, enotdir, is_at}
use brainix_old.Server.{Env, State, look_up, put, minus, ebusy}
use brainix_old.Server.Open.{dev_open_close}
use brainix_old.Server.Disk.{super_read, super_write, cache, with_cache, with_super, super_of}

abbrev pub ext2_super_magic : ℕ
ext2_super_magic = 61267

abbrev pub valid_fs : ℕ
valid_fs = 1

abbrev pub error_fs : ℕ
error_fs = 2

abbrev pub enodev : ℕ
enodev = 43

abbrev pub root_maj : ℕ
root_maj = 2

abbrev pub fs_pid : ℕ
fs_pid = 3

abbrev pub root_dev : ℕ
root_dev = maj_min_to_dev root_maj 0

-- 1024 shifted left by a 32-bit word.
abbrev pub shifted : ℕ → ℕ
shifted n = 1024 * 2 ^ n % 2 ^ 32

-- The name with its NUL, at a place in the superblock.
abbrev pub text_at : ℕ → Text → Bytes → Bytes
text_at at [] b = update b at 0
text_at at (c ∷ cs) b = text_at (at + 1) cs (update b at c)

-- The fields that are filled in when a file system is mounted.
unfoldable pub mounted_super :
    Super → (now dev : ℕ) → (name : Text) → (mount_point : Option ℕ) → Super
mounted_super s now dev name mount_point =
    let raw1 = set_word s.raw 44 now in
    let raw2 = set_half raw1 52 (half raw1 52 + 1) in
    let raw = text_at 136 name (set_half raw2 58 error_fs) in
    let frag = word raw 28 in
    record s {
      raw = raw;
      dev = dev;
      block_size = shifted (word raw 24);
      frag_size = (if ltb frag (2 ^ 31) then shifted frag else 1024 / 2 ^ (2 ^ 32 - frag));
      mount_point = mount_point;
    }

abbrev pub unmounted : Super → Super
unmounted s = record s {
  dev = no_dev;
  block_size = 0;
  frag_size = 0;
  mount_point = none;
  root_dir = none;
  dirty = false;
}

module _ {Dev : Type 0} (e : Env Dev) where
  -- The mount point is put, and the device closed if it has been opened.
  abbrev pub back_out : State Dev → (k : ℕ) → (opened : Option ℕ) → (r : ℕ) → Option (ℕ × State Dev)
  back_out s k none r = put e s (some k) >>= λ t. some (r, t)
  back_out s k (some dev) r =
      put e s (some k) >>= λ t. some (r, (dev_open_close e t dev true false).1)

  -- The last part of a mount, where the superblock has been read into its slot.
  unfoldable pub finish_mount :
      State Dev → (dev sp : ℕ) → (name : Text) → (mount_point : Option ℕ) → Option (State Dev)
  finish_mount s dev sp name mount_point = if ltb 64 (length name + 1) then none else do
    let s1 = with_super e s sp (mounted_super (super_of e s sp) e.now dev name mount_point)
    root ← inode_get e.dev_rw e.now s1.fs dev root_ino
    let s2 = record s1 { fs = root.1 }
    some (with_super e s2 sp (record (super_of e s2 sp) { root_dir = some root.0; dirty = true }))

  -- Whether a slot of the superblock table has the device or the mount point.
  abbrev pub conflicts : State Dev → (dev k sp : ℕ) → Bool
  conflicts s dev k sp = ((super_of e s sp).dev == dev) || is_at k (super_of e s sp).mount_point

  abbrev pub is_none : Option ℕ → Bool
  is_none none = true
  is_none (some k) = false

  unfoldable pub mount_read :
      (dev k : ℕ) → (name : Text) → Option ℕ → State Dev → Option (ℕ × State Dev)
  mount_read dev k name none s = back_out s k (some dev) (minus enfile)
  mount_read dev k name (some sp) s =
      if not (half (super_of e s sp).raw 56 == ext2_super_magic)
        || not (half (super_of e s sp).raw 58 == valid_fs)
      then back_out s k (some dev) (minus einval)
      else (finish_mount s dev sp name (some k) >>= λ t.
          some (0, record t { fs = set_inode t.fs k (record (t.fs.inode k) { mounted = true }) }))

  unfoldable pub mount_on : (dev : ℕ) → (name : Text) → Lookup → State Dev → Option (ℕ × State Dev)
  unfolding mount_read
  mount_on dev name (missing err) s = some (minus s.fs.cache.err_code, s)
  mount_on dev name (found k) s =
      if not (is_dir (some (s.fs.inode k)))
      then back_out s k none (minus enotdir)
      else if not (is_none (first_where (conflicts s dev k) 0 num_supers))
      then back_out s k none (minus ebusy)
      else let t = (dev_open_close e s dev true true).1 in
        if not (t.fs.cache.err_code == 0)
        then (put e t (some k) >>= λ u. some (minus u.fs.cache.err_code, u))
        else do r ← super_read e (cache e t) dev; mount_read dev k name r.0 (with_cache e t r.1)

  -- The device that a special file stands for: the device, or the result.
  unfoldable pub device_of : Lookup → State Dev → Option ((Option ℕ × ℕ) × State Dev)
  device_of (missing err) s = some ((none, minus s.fs.cache.err_code), s)
  device_of (found k) s =
      let i = some (s.fs.inode k) in
      put e s (some k) >>= λ t.
      some ((if is_blk i then some (inode_to_dev i) else none, minus enodev), t)

  unfoldable pub mount : State Dev → (dev_name mount_point_name : Text) → Option (ℕ × State Dev)
  unfolding device_of mount_on
  mount s dev_name mount_point_name = if not e.super_user then some (minus eacces, s) else do
    r ← look_up e s dev_name
    d ← device_of r.0 r.1
    elim d.0.0 [
      | none ↦ some (d.0.1, d.1)
      | some dev ↦ do m ← look_up e d.1 mount_point_name; mount_on dev mount_point_name m.0 m.1
    ]

  unfoldable pub mount_root : State Dev → Option (State Dev)
  mount_root s =
      let t = (dev_open_close e s root_dev true true).1 in
      if not (t.fs.cache.err_code == 0) then none else do
        r ← super_read e (cache e t) root_dev
        let u = with_cache e t r.1
        if not (u.fs.cache.err_code == 0)
            then none
            else do sp ← r.0; finish_mount u root_dev sp (b'/' ∷ []) none

  -- The count of the users of the inodes of a device, from slot j on, passes 1.
  unfoldable pub is_busy : Fs Dev → (dev count j n : ℕ) → Bool
  is_busy s dev count j zero = false
  is_busy s dev count j (suc n) =
      let i = s.inode j in
      let more = (if (i.dev == dev) && ltb 0 i.count then (count + i.count) % 256 else count) in
      let rest = is_busy s dev more (j + 1) n in
      if (i.dev == dev) && ltb 0 i.count && ltb 1 more then true else rest

  -- What both ways of unmounting do.
  unfoldable pub finish_umount : State Dev → (dev sp : ℕ) → Option (State Dev)
  finish_umount s dev sp = do
    let x = super_of e s sp
    let s1 = with_super e s sp (record x { raw = set_half x.raw 58 valid_fs; dirty = true })
    c ← super_write e (cache e s1) sp
    let s2 = with_cache e s1 c
    s3 ← put e s2 (super_of e s2 sp).mount_point
    s4 ← put e s3 (super_of e s3 sp).root_dir
    c' ← dev_sync e.dev_rw e.now (cache e s4) dev
    let s5 = (dev_open_close e (with_cache e s4 (dev_purge c' dev)) dev true false).1
    some (with_super e s5 sp (unmounted (super_of e s5 sp)))

  -- What follows when the device has been found.
  unfoldable pub umount_device : (Option ℕ × ℕ) × State Dev → Option (ℕ × State Dev)
  umount_device ((none, r), s) = some (r, s)
  umount_device ((some dev, r), s) = elim (super_get (cache e s).supers dev) [
    | none ↦ some (minus einval, s)
    | some sp ↦
        if is_busy s.fs dev 0 0 num_inodes
        then some (minus ebusy, s)
        else (finish_umount s dev sp >>= λ t. some (0, t))
  ]

  unfoldable pub umount : State Dev → (dev_name : Text) → Option (ℕ × State Dev)
  unfolding device_of umount_device
  umount s dev_name =
      if not e.super_user
      then some (minus eacces, s)
      else do r ← look_up e s dev_name; d ← device_of r.0 r.1; umount_device d

  unfoldable pub umount_root : State Dev → Option (State Dev)
  umount_root s = do sp ← super_get (cache e s).supers root_dev; finish_umount s root_dev sp

  -- Registering the driver of the root file system mounts it.
  unfoldable pub register : State Dev → (block : Bool) → (maj pid : ℕ) → Option (State Dev)
  register s block maj pid =
      let s1 = record s { driver_pid = fs_register s.driver_pid block maj pid } in
      if not (block && (maj == root_maj)) then some s1 else do
        s2 ← mount_root s1
        r ← inode_get e.dev_rw e.now s2.fs root_dev root_ino
        w ← inode_get e.dev_rw e.now r.1 root_dev root_ino
        some (record s2 {
          fs = w.1;
          files = record s2.files {
            root_dir = update s2.files.root_dir fs_pid (some r.0);
            work_dir = update s2.files.work_dir fs_pid (some w.0);
          };
        })
