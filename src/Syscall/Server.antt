-- ===== src/Syscall/Server.antt =====
-- The file system's side of a system call, and the exchange with it: the loop of fs_main in
-- src/fs/main.c, and the parts that the functions of src/kernel/syscall.c share.
use brainix_old.Base.{ℕ, ◌+◌, ◌-◌, ◌^◌, ◌&&◌, Option, none, some, ltb, leb, if◌then◌else◌}
use brainix_old.Inode.{Bytes}
use brainix_old.Syscall.{
  Request, access_args, close_args, dup_args, dup2_args, fcntl_args, ioctl_args, lseek_args,
  open_args, chdir_args, chroot_args, link_args, unlink_args, chmod_args, chown_args, umask_args,
  fstat_args, stat_args, read_args, write_args, sync_args, FileServer, Reply, reply, freed, World,
  empty, efault,
}

-- The memory with n bytes of the buffer copied to an address.
abbrev pub filled : Bytes → (at : ℕ) → Bytes → (n : ℕ) → Bytes
filled memory at b n k = if leb at k && ltb k (at + n) then b (k - at) else memory k

module _ {S : Type 0} where
  -- `do_getpid`, the sender of the caller's messages.
  abbrev pub caller : World S → ℕ
  caller w = (w.procs.proc (w.procs.proc w.procs.current_proc).pid).pid

  -- What is returned, with -1 and errno for a negative result.
  unfoldable pub cleanup : ℕ → World S → ℕ × World S
  cleanup r w = if leb (2 ^ 31) r then (2 ^ 32 - 1, record w { errno = 2 ^ 32 - r }) else (r, w)

  abbrev pub finish : Option (ℕ × (Bytes × World S)) → Option (ℕ × World S)
  finish none = none
  finish (some (r, (b, w))) = some (cleanup r w)

  abbrev pub bad_address : World S → Option (ℕ × World S)
  bad_address w = some (2 ^ 32 - 1, record w { errno = efault })

module _ {S Text : Type 0} (server : FileServer Text S) where
  abbrev pub replied : ℕ × S → Reply × S
  replied (r, s) = (reply r empty, s)

  -- One round of the loop of `fs_main`.
  unfoldable pub fs_main_round : (from : ℕ) → Request Text → S → Reply × S
  fs_main_round from (access_args path amode) s =
      replied (server.do_fs_access path amode (server.begin from s))
  fs_main_round from (close_args fildes) s =
      replied (server.do_fs_close fildes (server.begin from s))
  fs_main_round from (dup_args fildes) s = replied (server.do_fs_dup fildes (server.begin from s))
  fs_main_round from (dup2_args fildes fildes2) s =
      replied (server.do_fs_dup2 fildes fildes2 (server.begin from s))
  fs_main_round from (fcntl_args fildes cmd arg) s =
      replied (server.do_fs_fcntl fildes cmd arg (server.begin from s))
  fs_main_round from (ioctl_args fildes request arg) s =
      replied (server.do_fs_ioctl fildes request arg (server.begin from s))
  fs_main_round from (lseek_args fildes offset whence) s =
      replied (server.do_fs_lseek fildes offset whence (server.begin from s))
  fs_main_round from (open_args path oflag mode) s =
      replied (server.do_fs_open path oflag mode (server.begin from s))
  fs_main_round from (chdir_args path) s = replied (server.do_fs_chdir path (server.begin from s))
  fs_main_round from (chroot_args path) s = replied (server.do_fs_chroot path (server.begin from s))
  fs_main_round from (link_args path1 path2) s =
      replied (server.do_fs_link path1 path2 (server.begin from s))
  fs_main_round from (unlink_args path) s = replied (server.do_fs_unlink path (server.begin from s))
  fs_main_round from (chmod_args path mode) s =
      replied (server.do_fs_chmod path mode (server.begin from s))
  fs_main_round from (chown_args path owner group) s =
      replied (server.do_fs_chown path owner group (server.begin from s))
  fs_main_round from (umask_args cmask) s = replied (server.do_fs_umask cmask (server.begin from s))
  fs_main_round from (fstat_args fildes) s =
      replied (server.do_fs_fstat fildes (server.begin from s))
  fs_main_round from (stat_args path) s = replied (server.do_fs_stat path (server.begin from s))
  fs_main_round from (read_args fildes buf nbyte) s =
      let r = server.do_fs_read fildes buf nbyte (server.begin from s) in (reply r.0 r.1.0, r.1.1)
  fs_main_round from (write_args fildes buf nbyte) s =
      replied (server.do_fs_write fildes buf nbyte (server.begin from s))
  fs_main_round from sync_args s = (freed, server.do_fs_sync (server.begin from s))

  -- A message is sent and its reply awaited: the result, the buffer, and the world.
  unfoldable pub exchange : Request Text → World S → Option (ℕ × (Bytes × World S))
  exchange m w =
      let (a, s) = fs_main_round (caller w) m w.fs in
      elim a [ reply r b ↦ some (r, (b, record w { fs = s })) | freed ↦ none ]
