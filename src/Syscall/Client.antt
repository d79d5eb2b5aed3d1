-- ===== src/Syscall/Client.antt =====
-- The kernel's side of the system calls on files: src/kernel/syscall.c.
use brainix_old.Base.{ℕ, ◌+◌, Option, some, ltb, if◌then◌else◌, ◌>>=◌}
use brainix_old.Inode.{Bytes}
use brainix_old.Syscall.{
  access_args, close_args, dup_args, dup2_args, fcntl_args, ioctl_args, lseek_args, open_args,
  chdir_args, chroot_args, link_args, unlink_args, chmod_args, chown_args, umask_args, fstat_args,
  stat_args, read_args, write_args, sync_args, FileServer, World,
}
use brainix_old.Syscall.Server.{
  fs_main_round, caller, cleanup, exchange, finish, bad_address, filled,
}

module _ {S Text : Type 0} (server : FileServer Text S) (text : Bytes → ℕ → Text) (fresh : Bytes)
    (heap_bottom : ℕ) where
  unfoldable pub do_access : World S → (path amode : ℕ) → Option (ℕ × World S)
  do_access w path amode = finish (exchange server (access_args (text w.memory path) amode) w)

  unfoldable pub do_close : World S → (fildes : ℕ) → Option (ℕ × World S)
  do_close w fildes = finish (exchange server (close_args fildes) w)

  unfoldable pub do_dup : World S → (fildes : ℕ) → Option (ℕ × World S)
  do_dup w fildes = finish (exchange server (dup_args fildes) w)

  unfoldable pub do_dup2 : World S → (fildes fildes2 : ℕ) → Option (ℕ × World S)
  do_dup2 w fildes fildes2 = finish (exchange server (dup2_args fildes fildes2) w)

  unfoldable pub do_fcntl : World S → (fildes cmd arg : ℕ) → Option (ℕ × World S)
  do_fcntl w fildes cmd arg = finish (exchange server (fcntl_args fildes cmd arg) w)

  unfoldable pub do_ioctl : World S → (fildes request arg : ℕ) → Option (ℕ × World S)
  do_ioctl w fildes request arg = finish (exchange server (ioctl_args fildes request arg) w)

  unfoldable pub do_lseek : World S → (fildes offset whence : ℕ) → Option (ℕ × World S)
  do_lseek w fildes offset whence = finish (exchange server (lseek_args fildes offset whence) w)

  unfoldable pub do_open : World S → (path oflag mode : ℕ) → Option (ℕ × World S)
  do_open w path oflag mode = finish (exchange server (open_args (text w.memory path) oflag mode) w)

  unfoldable pub do_chdir : World S → (path : ℕ) → Option (ℕ × World S)
  do_chdir w path = finish (exchange server (chdir_args (text w.memory path)) w)

  unfoldable pub do_chroot : World S → (path : ℕ) → Option (ℕ × World S)
  do_chroot w path = finish (exchange server (chroot_args (text w.memory path)) w)

  unfoldable pub do_link : World S → (path1 path2 : ℕ) → Option (ℕ × World S)
  do_link w path1 path2 =
      finish (exchange server (link_args (text w.memory path1) (text w.memory path2)) w)

  unfoldable pub do_unlink : World S → (path : ℕ) → Option (ℕ × World S)
  do_unlink w path = finish (exchange server (unlink_args (text w.memory path)) w)

  unfoldable pub do_chmod : World S → (path mode : ℕ) → Option (ℕ × World S)
  do_chmod w path mode = finish (exchange server (chmod_args (text w.memory path) mode) w)

  unfoldable pub do_chown : World S → (path owner group : ℕ) → Option (ℕ × World S)
  do_chown w path owner group =
      finish (exchange server (chown_args (text w.memory path) owner group) w)

  unfoldable pub do_umask : World S → (cmask : ℕ) → Option (ℕ × World S)
  do_umask w cmask = finish (exchange server (umask_args cmask) w)

  -- What the file system writes to its copy of the buffer is dropped.
  unfoldable pub do_fstat : World S → (fildes buf : ℕ) → Option (ℕ × World S)
  do_fstat w fildes buf =
      if ltb buf heap_bottom then bad_address w else finish (exchange server (fstat_args fildes) w)

  unfoldable pub do_stat : World S → (path buf : ℕ) → Option (ℕ × World S)
  do_stat w path buf =
      if ltb buf heap_bottom
      then bad_address w
      else finish (exchange server (stat_args (text w.memory path)) w)

  unfoldable pub do_read : World S → (fildes buf nbyte : ℕ) → Option (ℕ × World S)
  do_read w fildes buf nbyte = if ltb buf heap_bottom then bad_address w else do
    a ← exchange server (read_args fildes fresh nbyte) w
    let w' = a.1.1
    some (cleanup a.0 (record w' { memory = filled w'.memory buf a.1.0 nbyte }))

  unfoldable pub do_write : World S → (fildes buf nbyte : ℕ) → Option (ℕ × World S)
  do_write w fildes buf nbyte =
      if ltb buf heap_bottom
      then bad_address w
      else finish (
          exchange server (write_args fildes (filled fresh 0 (λ k. w.memory (buf + k)) nbyte) nbyte)
            w)

  -- No reply is awaited.
  unfoldable pub do_sync : World S → World S
  do_sync w = record w { fs = (fs_main_round server (caller w) sync_args w.fs).1 }
