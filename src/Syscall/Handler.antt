-- ===== src/Syscall/Handler.antt =====
-- The dispatch of src/fs/op_handler.c, a second one beside that of src/fs/main.c, for the messages of
-- the system calls on files.
use brainix_old.Base.{ℕ, ◌≡◌, refl}
use brainix_old.Inode.{Bytes}
use brainix_old.Syscall.{
  Request, access_args, close_args, dup_args, dup2_args, fcntl_args, ioctl_args, lseek_args,
  open_args, chdir_args, chroot_args, link_args, unlink_args, chmod_args, chown_args, umask_args,
  fstat_args, stat_args, read_args, write_args, sync_args, FileServer, Reply, reply, empty,
}
use brainix_old.Syscall.Server.{fs_main_round, replied}

-- `unset` is what the place of a result holds in a message that takes none.
module _ {S Text : Type 0} (server : FileServer Text S) (unset : ℕ) where
  unfoldable pub fs__access : Text → ℕ → S → Reply × S
  fs__access path amode s = replied server (server.do_fs_access path amode s)

  unfoldable pub fs__close : ℕ → S → Reply × S
  fs__close fildes s = replied server (server.do_fs_close fildes s)

  unfoldable pub fs__dup : ℕ → S → Reply × S
  fs__dup fildes s = replied server (server.do_fs_dup fildes s)

  unfoldable pub fs__dup2 : ℕ → ℕ → S → Reply × S
  fs__dup2 fildes fildes2 s = replied server (server.do_fs_dup2 fildes fildes2 s)

  unfoldable pub fs__fcntl : ℕ → ℕ → ℕ → S → Reply × S
  fs__fcntl fildes cmd arg s = replied server (server.do_fs_fcntl fildes cmd arg s)

  unfoldable pub lazy_fstat : ℕ → S → Reply × S
  lazy_fstat fildes s = replied server (server.do_fs_fstat fildes s)

  unfoldable pub fs__ioctl : ℕ → ℕ → ℕ → S → Reply × S
  fs__ioctl fildes request arg s = replied server (server.do_fs_ioctl fildes request arg s)

  unfoldable pub fs__lseek : ℕ → ℕ → ℕ → S → Reply × S
  fs__lseek fildes offset whence s = replied server (server.do_fs_lseek fildes offset whence s)

  unfoldable pub fs__open : Text → ℕ → ℕ → S → Reply × S
  fs__open path oflag mode s = replied server (server.do_fs_open path oflag mode s)

  unfoldable pub fs__read : ℕ → Bytes → ℕ → S → Reply × S
  fs__read fildes buf nbyte s =
      let r = server.do_fs_read fildes buf nbyte s in (reply r.0 r.1.0, r.1.1)

  unfoldable pub fs__stat : Text → S → Reply × S
  fs__stat path s = replied server (server.do_fs_stat path s)

  unfoldable pub fs__write : ℕ → Bytes → ℕ → S → Reply × S
  fs__write fildes buf nbyte s = replied server (server.do_fs_write fildes buf nbyte s)

  unfoldable pub fs__chdir : Text → S → Reply × S
  fs__chdir path s = replied server (server.do_fs_chdir path s)

  unfoldable pub fs__chroot : Text → S → Reply × S
  fs__chroot path s = replied server (server.do_fs_chroot path s)

  unfoldable pub fs__link : Text → Text → S → Reply × S
  fs__link path1 path2 s = replied server (server.do_fs_link path1 path2 s)

  unfoldable pub fs__unlink : Text → S → Reply × S
  fs__unlink path s = replied server (server.do_fs_unlink path s)

  unfoldable pub fs__chmod : Text → ℕ → S → Reply × S
  fs__chmod path mode s = replied server (server.do_fs_chmod path mode s)

  unfoldable pub fs__chown : Text → ℕ → ℕ → S → Reply × S
  fs__chown path owner group s = replied server (server.do_fs_chown path owner group s)

  unfoldable pub fs__umask : ℕ → S → Reply × S
  fs__umask cmask s = replied server (server.do_fs_umask cmask s)

  unfoldable pub fs__sync : S → Reply × S
  fs__sync s = (reply unset empty, server.do_fs_sync s)

  unfoldable pub handle : Request Text → S → Reply × S
  handle (access_args path amode) s = fs__access path amode s
  handle (close_args fildes) s = fs__close fildes s
  handle (dup_args fildes) s = fs__dup fildes s
  handle (dup2_args fildes fildes2) s = fs__dup2 fildes fildes2 s
  handle (fcntl_args fildes cmd arg) s = fs__fcntl fildes cmd arg s
  handle (fstat_args fildes) s = lazy_fstat fildes s
  handle (ioctl_args fildes request arg) s = fs__ioctl fildes request arg s
  handle (lseek_args fildes offset whence) s = fs__lseek fildes offset whence s
  handle (open_args path oflag mode) s = fs__open path oflag mode s
  handle (read_args fildes buf nbyte) s = fs__read fildes buf nbyte s
  handle (stat_args path) s = fs__stat path s
  handle (write_args fildes buf nbyte) s = fs__write fildes buf nbyte s
  handle (chdir_args path) s = fs__chdir path s
  handle (chroot_args path) s = fs__chroot path s
  handle (link_args path1 path2) s = fs__link path1 path2 s
  handle (unlink_args path) s = fs__unlink path s
  handle (chmod_args path mode) s = fs__chmod path mode s
  handle (chown_args path owner group) s = fs__chown path owner group s
  handle (umask_args cmask) s = fs__umask cmask s
  handle sync_args s = fs__sync s

  -- After the message the process exits: its status, what becomes of the message, and the state.
  unfoldable pub fs_op : Request Text → S → ℕ × (Reply × S)
  fs_op m s = (0, handle m s)

  -- A message without a result is sent back as it came.
  abbrev pub sent_back : Request Text → Reply × S → Reply × S
  sent_back (access_args path amode) r = r
  sent_back (close_args fildes) r = r
  sent_back (dup_args fildes) r = r
  sent_back (dup2_args fildes fildes2) r = r
  sent_back (fcntl_args fildes cmd arg) r = r
  sent_back (fstat_args fildes) r = r
  sent_back (ioctl_args fildes request arg) r = r
  sent_back (lseek_args fildes offset whence) r = r
  sent_back (open_args path oflag mode) r = r
  sent_back (read_args fildes buf nbyte) r = r
  sent_back (stat_args path) r = r
  sent_back (write_args fildes buf nbyte) r = r
  sent_back (chdir_args path) r = r
  sent_back (chroot_args path) r = r
  sent_back (link_args path1 path2) r = r
  sent_back (unlink_args path) r = r
  sent_back (chmod_args path mode) r = r
  sent_back (chown_args path owner group) r = r
  sent_back (umask_args cmask) r = r
  sent_back sync_args (a, s) = (reply unset empty, s)

  -- For a message of a system call on files, `fs_op` does what a round of `fs_main` does, but that it
  -- replies to sync(), and exits then.
  pub fs_op_lem :
      (from : ℕ) (m : Request Text) (s : S)
      → fs_op m (server.begin from s) ≡ (0, sent_back m (fs_main_round server from m s))
  unfolding fs_op handle fs_main_round fs__sync fs__access fs__close fs__dup fs__dup2 fs__fcntl
      lazy_fstat fs__ioctl fs__lseek fs__open fs__read fs__stat fs__write fs__chdir fs__chroot
      fs__link fs__unlink fs__chmod fs__chown fs__umask
  fs_op_lem from (access_args path amode) s = refl
  fs_op_lem from (close_args fildes) s = refl
  fs_op_lem from (dup_args fildes) s = refl
  fs_op_lem from (dup2_args fildes fildes2) s = refl
  fs_op_lem from (fcntl_args fildes cmd arg) s = refl
  fs_op_lem from (fstat_args fildes) s = refl
  fs_op_lem from (ioctl_args fildes request arg) s = refl
  fs_op_lem from (lseek_args fildes offset whence) s = refl
  fs_op_lem from (open_args path oflag mode) s = refl
  fs_op_lem from (read_args fildes buf nbyte) s = refl
  fs_op_lem from (stat_args path) s = refl
  fs_op_lem from (write_args fildes buf nbyte) s = refl
  fs_op_lem from (chdir_args path) s = refl
  fs_op_lem from (chroot_args path) s = refl
  fs_op_lem from (link_args path1 path2) s = refl
  fs_op_lem from (unlink_args path) s = refl
  fs_op_lem from (chmod_args path mode) s = refl
  fs_op_lem from (chown_args path owner group) s = refl
  fs_op_lem from (umask_args cmask) s = refl
  fs_op_lem from sync_args s = refl
