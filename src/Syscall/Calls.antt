-- ===== src/Syscall/Calls.antt =====
-- The library's functions for files, and what they come to: src/lib/unistd.c, src/lib/sys/stat.c.
use brainix_old.Base.{
  ℕ, ◌+◌, ◌-◌, ◌^◌, ◌≡◌, refl, ap, true, Option, some, ltb, leb, if◌then◌else◌, Bool-cases, inl,
  inr,
}
use brainix_old.Inode.{Bytes}
use brainix_old.Syscall.{
  FileServer, World, Regs, syscall, sys_access, sys_close, sys_dup, sys_dup2, sys_fstat, sys_lseek,
  sys_read, sys_stat, sys_write, sys_chdir, sys_link, sys_sync, sys_unlink, sys_chmod, sys_chown,
  sys_umask, efault,
}
use brainix_old.Syscall.Server.{caller, filled, fs_main_round, cleanup, exchange}
use brainix_old.Syscall.Client.{
  do_access, do_close, do_dup, do_dup2, do_lseek, do_chdir, do_link, do_unlink, do_chmod, do_chown,
  do_umask, do_fstat, do_stat, do_read, do_write, do_sync,
}
use brainix_old.Syscall.Dispatch.{do_syscall, dispatch, leave, timed}

abbrev pub access : (path amode : ℕ) → Regs
access path amode = syscall sys_access path amode 0

abbrev pub close : (fildes : ℕ) → Regs
close fildes = syscall sys_close fildes 0 0

abbrev pub dup : (fildes : ℕ) → Regs
dup fildes = syscall sys_dup fildes 0 0

abbrev pub dup2 : (fildes fildes2 : ℕ) → Regs
dup2 fildes fildes2 = syscall sys_dup2 fildes fildes2 0

abbrev pub lseek : (fildes offset whence : ℕ) → Regs
lseek fildes offset whence = syscall sys_lseek fildes offset whence

abbrev pub chdir : (path : ℕ) → Regs
chdir path = syscall sys_chdir path 0 0

abbrev pub link : (path1 path2 : ℕ) → Regs
link path1 path2 = syscall sys_link path1 path2 0

abbrev pub unlink : (path : ℕ) → Regs
unlink path = syscall sys_unlink path 0 0

abbrev pub chmod : (path mode : ℕ) → Regs
chmod path mode = syscall sys_chmod path mode 0

abbrev pub chown : (path owner group : ℕ) → Regs
chown path owner group = syscall sys_chown path owner group

abbrev pub umask : (cmask : ℕ) → Regs
umask cmask = syscall sys_umask cmask 0 0

abbrev pub fstat : (fildes buf : ℕ) → Regs
fstat fildes buf = syscall sys_fstat fildes buf 0

abbrev pub read : (fildes buf nbyte : ℕ) → Regs
read fildes buf nbyte = syscall sys_read fildes buf nbyte

abbrev pub stat : (path buf : ℕ) → Regs
stat path buf = syscall sys_stat path buf 0

abbrev pub write : (fildes buf nbyte : ℕ) → Regs
write fildes buf nbyte = syscall sys_write fildes buf nbyte

abbrev pub sync : Regs
sync = syscall sys_sync 0 0 0

-- A call of one of these functions.
pub data Call : Type 0 where
  access_call : (path amode : ℕ) → Call
  close_call : (fildes : ℕ) → Call
  dup_call : (fildes : ℕ) → Call
  dup2_call : (fildes fildes2 : ℕ) → Call
  lseek_call : (fildes offset whence : ℕ) → Call
  chdir_call : (path : ℕ) → Call
  link_call : (path1 path2 : ℕ) → Call
  unlink_call : (path : ℕ) → Call
  chmod_call : (path mode : ℕ) → Call
  chown_call : (path owner group : ℕ) → Call
  umask_call : (cmask : ℕ) → Call
  fstat_call : (fildes buf : ℕ) → Call
  read_call : (fildes buf nbyte : ℕ) → Call
  stat_call : (path buf : ℕ) → Call
  write_call : (fildes buf nbyte : ℕ) → Call
  sync_call : Call

-- The registers in which it enters the kernel.
abbrev pub registers : Call → Regs
registers (access_call path amode) = access path amode
registers (close_call fildes) = close fildes
registers (dup_call fildes) = dup fildes
registers (dup2_call fildes fildes2) = dup2 fildes fildes2
registers (lseek_call fildes offset whence) = lseek fildes offset whence
registers (chdir_call path) = chdir path
registers (link_call path1 path2) = link path1 path2
registers (unlink_call path) = unlink path
registers (chmod_call path mode) = chmod path mode
registers (chown_call path owner group) = chown path owner group
registers (umask_call cmask) = umask cmask
registers (fstat_call fildes buf) = fstat fildes buf
registers (read_call fildes buf nbyte) = read fildes buf nbyte
registers (stat_call path buf) = stat path buf
registers (write_call fildes buf nbyte) = write fildes buf nbyte
registers sync_call = sync

module _ {S Text : Type 0} (server : FileServer Text S) (text : Bytes → ℕ → Text) (fresh : Bytes)
    (heap_bottom : ℕ) (others : Regs → World S → Option (ℕ × World S)) where
  -- A result and the file system's state after it; minus an error number is -1 and errno.
  abbrev pub told : World S → ℕ × S → Option (ℕ × World S)
  told w (r, s) =
      if leb (2 ^ 31) r
      then some (2 ^ 32 - 1, record w { fs = s; errno = 2 ^ 32 - r })
      else some (r, record w { fs = s })

  -- The file system as it works for the caller.
  abbrev pub serving : World S → S
  serving w = server.begin (caller w) w.fs

  abbrev pub checked : World S → (buf : ℕ) → Option (ℕ × World S) → Option (ℕ × World S)
  checked w buf result =
      if ltb buf heap_bottom then some (2 ^ 32 - 1, record w { errno = efault }) else result

  -- What a call means: one operation of the file system, on the caller's own arguments.
  abbrev pub intended : Call → World S → Option (ℕ × World S)
  intended (access_call path amode) w =
      told w (server.do_fs_access (text w.memory path) amode (serving w))
  intended (close_call fildes) w = told w (server.do_fs_close fildes (serving w))
  intended (dup_call fildes) w = told w (server.do_fs_dup fildes (serving w))
  intended (dup2_call fildes fildes2) w = told w (server.do_fs_dup2 fildes fildes2 (serving w))
  intended (lseek_call fildes offset whence) w =
      told w (server.do_fs_lseek fildes offset whence (serving w))
  intended (chdir_call path) w = told w (server.do_fs_chdir (text w.memory path) (serving w))
  intended (link_call path1 path2) w =
      told w (server.do_fs_link (text w.memory path1) (text w.memory path2) (serving w))
  intended (unlink_call path) w = told w (server.do_fs_unlink (text w.memory path) (serving w))
  intended (chmod_call path mode) w =
      told w (server.do_fs_chmod (text w.memory path) mode (serving w))
  intended (chown_call path owner group) w =
      told w (server.do_fs_chown (text w.memory path) owner group (serving w))
  intended (umask_call cmask) w = told w (server.do_fs_umask cmask (serving w))
  intended (fstat_call fildes buf) w =
      checked w buf (told w (server.do_fs_fstat fildes (serving w)))
  intended (stat_call path buf) w =
      checked w buf (told w (server.do_fs_stat (text w.memory path) (serving w)))
  intended (read_call fildes buf nbyte) w =
      let (r, (b, s)) = server.do_fs_read fildes fresh nbyte (serving w) in
      checked w buf (told (record w { memory = filled w.memory buf b nbyte }) (r, s))
  intended (write_call fildes buf nbyte) w = checked w buf (
      told w (
        server.do_fs_write fildes (filled fresh 0 (λ k. w.memory (buf + k)) nbyte) nbyte
          (serving w)))
  intended sync_call w = some (sys_sync, record w { fs = server.do_fs_sync (serving w) })

  -- `cleanup` tells the caller the result.
  told-cleanup : (w : World S) (r : ℕ × S) → some (cleanup r.0 (record w { fs = r.1 })) ≡ told w r
  unfolding cleanup
  told-cleanup w r = elim (Bool-cases (leb (2 ^ 31) r.0)) [ inl b ↦ rw b refl | inr b ↦ rw b refl ]

  through :
      (w : World S) (r : ℕ × S)
      → leave (some (cleanup r.0 (record w { fs = r.1 }))) ≡ leave (told w r)
  through w r = ap leave (told-cleanup w r)

  -- A call of a library function, as registers and through the kernel, a message to the file system
  -- and its reply, comes to one operation of the file system for the caller on the arguments of the
  -- call. Its result is that of the operation, or -1 with the error number in errno. A buffer below
  -- the user's heap is EFAULT, without an operation; the caller's memory changes only in `read`, by
  -- as many bytes as were asked for.
  pub do_syscall_lem :
      (c : Call) (w : World S)
      → do_syscall server text fresh heap_bottom others (registers c) w
        ≡ leave (intended c (timed true w))
  unfolding do_syscall dispatch exchange fs_main_round do_sync do_access do_close do_dup do_dup2
      do_lseek do_chdir do_link do_unlink do_chmod do_chown do_umask do_fstat do_stat do_read
      do_write
  do_syscall_lem (access_call path amode) w =
      let t = timed true w in through t (server.do_fs_access (text w.memory path) amode (serving t))
  do_syscall_lem (close_call fildes) w =
      let t = timed true w in through t (server.do_fs_close fildes (serving t))
  do_syscall_lem (dup_call fildes) w =
      let t = timed true w in through t (server.do_fs_dup fildes (serving t))
  do_syscall_lem (dup2_call fildes fildes2) w =
      let t = timed true w in through t (server.do_fs_dup2 fildes fildes2 (serving t))
  do_syscall_lem (lseek_call fildes offset whence) w =
      let t = timed true w in through t (server.do_fs_lseek fildes offset whence (serving t))
  do_syscall_lem (chdir_call path) w =
      let t = timed true w in through t (server.do_fs_chdir (text w.memory path) (serving t))
  do_syscall_lem (link_call path1 path2) w =
      let t = timed true w in
      through t (server.do_fs_link (text w.memory path1) (text w.memory path2) (serving t))
  do_syscall_lem (unlink_call path) w =
      let t = timed true w in through t (server.do_fs_unlink (text w.memory path) (serving t))
  do_syscall_lem (chmod_call path mode) w =
      let t = timed true w in through t (server.do_fs_chmod (text w.memory path) mode (serving t))
  do_syscall_lem (chown_call path owner group) w =
      let t = timed true w in
      through t (server.do_fs_chown (text w.memory path) owner group (serving t))
  do_syscall_lem (umask_call cmask) w =
      let t = timed true w in through t (server.do_fs_umask cmask (serving t))
  do_syscall_lem (fstat_call fildes buf) w = elim (Bool-cases (ltb buf heap_bottom)) [
    | inl b ↦ rw b refl
    | inr b ↦ rw b (let t = timed true w in through t (server.do_fs_fstat fildes (serving t)))
  ]
  do_syscall_lem (stat_call path buf) w = elim (Bool-cases (ltb buf heap_bottom)) [
    | inl b ↦ rw b refl
    | inr b ↦
        rw b
          (let t = timed true w in through t (server.do_fs_stat (text w.memory path) (serving t)))
  ]
  do_syscall_lem (read_call fildes buf nbyte) w = elim (Bool-cases (ltb buf heap_bottom)) [
    | inl b ↦ rw b refl
    | inr b ↦ rw b (
        let t = timed true w in
        let r = server.do_fs_read fildes fresh nbyte (serving t) in
        through (record t { memory = filled t.memory buf r.1.0 nbyte }) (r.0, r.1.1))
  ]
  do_syscall_lem (write_call fildes buf nbyte) w = elim (Bool-cases (ltb buf heap_bottom)) [
    | inl b ↦ rw b refl
    | inr b ↦ rw b (
        let t = timed true w in
        through t (
          server.do_fs_write fildes (filled fresh 0 (λ k. w.memory (buf + k)) nbyte) nbyte
            (serving t)))
  ]
  do_syscall_lem sync_call w = refl
