-- ===== src/Server.antt =====
-- The file system's operations on paths: src/fs/link.c, src/fs/dir.c, src/fs/stat.c, src/fs/time.c,
-- and the functions of src/fs/perm.c from the path on. A result is a 32-bit word, an error number
-- is also left in err_code. No result is a panic or a fault.
pub mod Balance
pub mod Calls
pub mod Disk
pub mod Kept
pub mod Mount
pub mod Mounted
pub mod Once
pub mod Open
pub mod Rw
pub mod Slots
mod StoreTests
pub mod Users
pub mod WrittenBack
pub mod Tests
use brainix_old.Base.{
  ℕ, ◌+◌, ◌-◌, ◌*◌, ◌%◌, ◌^◌, Bool, true, false, ◌&&◌, not, Option, none, some, leb, ◌==◌,
  if◌then◌else◌, update, ◌>>=◌,
}
use brainix_old.Base.Int.{ℤ}
use brainix_old.Block.{DevRw}
use brainix_old.Process.{Procs}
use brainix_old.Inode.{
  Fs, Inode, Bytes, half, word, set_word, set_inode, i_mode, i_uid, i_gid, is_dir, inode_put,
}
use brainix_old.Perm.{
  perm, eacces, eperm, set_half, Answer, success, failed, unresolved, do_fs_access, do_fs_chmod,
  do_fs_chown,
}
use brainix_old.Fildes.{Files, ebadf, fildes_to_open_descr}
use brainix_old.Path.{
  Text, Lookup, found, missing, root_ino, x_ok, enotdir, i_links_count, path_to_inode,
}

abbrev pub w_ok : ℕ
w_ok = 2

abbrev pub link_max : ℕ
link_max = 8

abbrev pub ebusy : ℕ
ebusy = 10

abbrev pub eexist : ℕ
eexist = 20

abbrev pub emlink : ℕ
emlink = 34

-- What a system call finds: how a device transfers a block, what a driver answers when a device is
-- opened or closed and when it transfers any number of bytes, the time, fuel, the memory, and the
-- process that sent the message.
pub record Env (Dev : Type 0) : Type 0 where
  pub dev_rw : DevRw Dev Bytes
  pub driver_open : Dev → (pid min : ℕ) → (open_it : Bool) → Dev × ℕ
  pub driver_rw : Dev → (pid min off size : ℕ) → (read : Bool) → Bytes → Dev × (Bytes × ℕ)
  pub now : ℕ
  pub deep : ℕ
  pub entries : ℕ
  pub memory : Bytes
  pub procs : Procs
  pub from : ℕ
  pub super_user : Bool

pub record State (Dev : Type 0) : Type 0 where
  pub fs : Fs Dev
  pub files : Files
  pub driver_pid : ℕ → ℕ

-- err_code is kept beside the devices, which set it too.
abbrev pub set_err : {Dev : Type 0} → State Dev → (err : ℕ) → State Dev
set_err s err = record s { fs = record s.fs { cache = record s.fs.cache { err_code = err } } }

pub record Stat : Type 0 where
  pub st_dev : ℕ
  pub st_ino : ℕ
  pub st_mode : ℕ
  pub st_nlink : ℕ
  pub st_uid : ℕ
  pub st_gid : ℕ
  pub st_size : ℕ
  pub st_atime : ℕ
  pub st_mtime : ℕ
  pub st_ctime : ℕ

unfoldable pub fill_stat_buf : Inode → Stat
fill_stat_buf i = record {
  st_dev = i.dev;
  st_ino = i.ino;
  st_mode = i_mode i;
  st_nlink = i_links_count i;
  st_uid = i_uid i;
  st_gid = i_gid i;
  st_size = word i.raw 4;
  st_atime = word i.raw 8;
  st_mtime = word i.raw 16;
  st_ctime = word i.raw 12;
}

-- -err_code as a word.
abbrev pub minus : ℕ → ℕ
minus err = (2 ^ 32 - err) % 2 ^ 32

abbrev pub slot : Lookup → Option ℕ
slot (found k) = some k
slot (missing err) = none

-- The new links count, and the mark.
abbrev pub relinked : Inode → ℕ → Inode
relinked i n = record i { raw = set_half i.raw 26 n; dirty = true }

abbrev pub with_times : Inode → (atime mtime : ℕ) → Inode
with_times i atime mtime = record i {
  raw = set_word (set_word i.raw 8 atime) 16 mtime;
  dirty = true;
}

abbrev pub retimed : (now : ℕ) → (times : Option (ℕ × ℕ)) → Inode → Inode
retimed now none i = with_times i now now
retimed now (some (actime, modtime)) i = with_times i actime modtime

module _ {Dev : Type 0} (e : Env Dev) where
  abbrev pub noted : State Dev → Lookup → Fs Dev → State Dev
  noted s (found k) t = record s { fs = t }
  noted s (missing err) t = set_err (record s { fs = t }) err

  unfoldable pub look_up : State Dev → Text → Option (Lookup × State Dev)
  look_up s path = do
    r ←
        path_to_inode e.dev_rw e.now e.deep e.entries e.memory e.procs e.from e.super_user
          s.files.root_dir s.files.work_dir s.fs path
    some (r.0, noted s r.0 r.1)

  unfoldable pub put : State Dev → Option ℕ → Option (State Dev)
  put s ip = do t ← inode_put e.dev_rw e.now s.fs ip; some (record s { fs = t })

  -- A failure after which an inode is put.
  abbrev pub refuse : State Dev → Option ℕ → (err : ℕ) → Option (ℕ × State Dev)
  refuse s ip err = do t ← put s ip; some (minus err, set_err t err)

  abbrev pub granted : State Dev → ℕ → (requested : ℕ) → Bool
  granted s k requested = perm e.procs e.from e.super_user (some (s.fs.inode k)) requested false

  abbrev pub with_inode : State Dev → ℕ → Inode → State Dev
  with_inode s k i = record s { fs = set_inode s.fs k i }

  -- The second path must not lead anywhere.
  pub link_new : (i : ℕ) → Lookup → State Dev → Option (ℕ × State Dev)
  link_new i (found j) s = put s (some i) >>= λ t. refuse t (some j) eexist
  link_new i (missing err) s =
      put (with_inode s i (relinked (s.fs.inode i) (i_links_count (s.fs.inode i) + 1))) (some i)
      >>= λ t. some (0, t)

  pub link_found : (i : ℕ) → Lookup → State Dev → Option (ℕ × State Dev)
  unfolding link_new
  link_found i b s =
      if leb link_max (i_links_count (s.fs.inode i))
      then (put s (some i) >>= λ t. refuse t (slot b) emlink)
      else if not e.super_user && is_dir (some (s.fs.inode i))
      then (put s (some i) >>= λ t. refuse t (slot b) eperm)
      else link_new i b s

  pub link_both : Lookup → Lookup → State Dev → Option (ℕ × State Dev)
  unfolding link_found
  link_both (missing err) b s = put s (slot b) >>= λ t. some (minus t.fs.cache.err_code, t)
  link_both (found i) b s = link_found i b s

  unfoldable pub do_fs_link : State Dev → (path1 path2 : Text) → Option (ℕ × State Dev)
  unfolding link_both
  do_fs_link s path1 path2 = do a ← look_up s path1; b ← look_up a.1 path2; link_both a.0 b.0 b.1

  pub unlink_found : Lookup → State Dev → Option (ℕ × State Dev)
  unlink_found (missing err) s = some (minus s.fs.cache.err_code, s)
  unlink_found (found k) s =
      if (s.fs.inode k).ino == root_ino
      then refuse s (some k) ebusy
      else if not e.super_user && is_dir (some (s.fs.inode k))
      then refuse s (some k) eperm
      else put
          (with_inode s k
            (relinked (s.fs.inode k) ((i_links_count (s.fs.inode k) + 2 ^ 16 - 1) % 2 ^ 16)))
          (some k)
        >>= λ t. some (0, t)

  unfoldable pub do_fs_unlink : State Dev → Text → Option (ℕ × State Dev)
  unfolding unlink_found
  do_fs_unlink s path = do r ← look_up s path; unlink_found r.0 r.1

  -- `root` tells which of the two directories of the process changes.
  pub change_dir : (root : Bool) → Lookup → State Dev → Option (ℕ × State Dev)
  change_dir root (missing err) s = some (minus s.fs.cache.err_code, s)
  change_dir root (found k) s =
      if not (is_dir (some (s.fs.inode k)))
      then refuse s (some k) enotdir
      else if not (granted s k x_ok)
      then refuse s (some k) eacces
      else if root
      then (put s (s.files.root_dir e.from) >>= λ t. some (
        0,
        record t { files = record t.files { root_dir = update t.files.root_dir e.from (some k) } },
      ))
      else (put s (s.files.work_dir e.from) >>= λ t. some (
        0,
        record t { files = record t.files { work_dir = update t.files.work_dir e.from (some k) } },
      ))

  unfoldable pub change : State Dev → (root : Bool) → Text → Option (ℕ × State Dev)
  unfolding change_dir
  change s root path = do r ← look_up s path; change_dir root r.0 r.1

  unfoldable pub do_fs_chroot : State Dev → Text → Option (ℕ × State Dev)
  do_fs_chroot s path =
      if not e.super_user then some (minus eperm, set_err s eperm) else change s true path

  unfoldable pub do_fs_chdir : State Dev → Text → Option (ℕ × State Dev)
  do_fs_chdir s path = change s false path

  unfoldable pub do_fs_fstat : State Dev → ℤ → Option (ℕ × Option Stat)
  do_fs_fstat s fildes = elim (fildes_to_open_descr s.files fildes) [
    | none ↦ some (minus ebadf, none)
    | some p ↦ elim (s.files.file_ptr p).inode_ptr [
      | none ↦ none
      | some k ↦ some (0, some (fill_stat_buf (s.fs.inode k)))
    ]
  ]

  pub stat_found : Lookup → State Dev → Option ((ℕ × Option Stat) × State Dev)
  stat_found (missing err) s = some ((minus s.fs.cache.err_code, none), s)
  stat_found (found k) s = do t ← put s (some k); some ((0, some (fill_stat_buf (s.fs.inode k))), t)

  unfoldable pub do_fs_stat : State Dev → Text → Option ((ℕ × Option Stat) × State Dev)
  unfolding stat_found
  do_fs_stat s path = do r ← look_up s path; stat_found r.0 r.1

  pub utime_found : (times : Option (ℕ × ℕ)) → Lookup → State Dev → Option (ℕ × State Dev)
  utime_found times (missing err) s = some (minus s.fs.cache.err_code, s)
  utime_found times (found k) s =
      if not (granted s k w_ok)
      then refuse s (some k) eperm
      else put (with_inode s k (retimed e.now times (s.fs.inode k))) (some k) >>= λ t. some (0, t)

  unfoldable pub do_fs_utime : State Dev → Text → (times : Option (ℕ × ℕ)) → Option (ℕ × State Dev)
  unfolding utime_found
  do_fs_utime s path times = do r ← look_up s path; utime_found times r.0 r.1

  -- What the functions of src/fs/perm.c answer.
  abbrev pub answered : State Dev → Option (Answer × Fs Dev) → Option (ℕ × State Dev)
  answered s none = none
  answered s (some (success, t)) = some (0, record s { fs = t })
  answered s (some (failed err, t)) = some (minus err, set_err (record s { fs = t }) err)
  answered s (some (unresolved, t)) = some (minus s.fs.cache.err_code, record s { fs = t })

  unfoldable pub access_path : State Dev → Text → (amode : ℕ) → Option (ℕ × State Dev)
  access_path s path amode = do
    r ← look_up s path
    answered r.1 (do_fs_access e.dev_rw e.now e.procs e.from e.super_user r.1.fs (slot r.0) amode)

  unfoldable pub chmod_path : State Dev → Text → (mode : ℕ) → Option (ℕ × State Dev)
  chmod_path s path mode = do
    r ← look_up s path
    answered r.1 (do_fs_chmod e.dev_rw e.now e.procs e.from e.super_user r.1.fs (slot r.0) mode)

  unfoldable pub chown_path : State Dev → Text → (owner group : ℕ) → Option (ℕ × State Dev)
  chown_path s path owner group = do
    r ← look_up s path
    answered r.1
        (do_fs_chown e.dev_rw e.now e.procs e.from e.super_user r.1.fs (slot r.0) owner group)
