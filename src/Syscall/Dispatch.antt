-- ===== src/Syscall/Dispatch.antt =====
-- The dispatch of system calls by their number: do_syscall of src/kernel/syscall.c.
use brainix_old.Base.{ℕ, Bool, true, false, Option, none, some, ◌==◌, if◌then◌else◌}
use brainix_old.Process.{proc_time}
use brainix_old.Inode.{Bytes}
use brainix_old.Syscall.{
  FileServer, World, Regs, sys_access, sys_close, sys_dup, sys_dup2, sys_fcntl, sys_fstat,
  sys_ioctl, sys_lseek, sys_open, sys_read, sys_stat, sys_write, sys_chdir, sys_chroot, sys_link,
  sys_sync, sys_unlink, sys_chmod, sys_chown, sys_umask,
}
use brainix_old.Syscall.Client.{
  do_access, do_close, do_dup, do_dup2, do_fcntl, do_ioctl, do_lseek, do_open, do_chdir, do_chroot,
  do_link, do_unlink, do_chmod, do_chown, do_umask, do_fstat, do_stat, do_read, do_write, do_sync,
}

module _ {S : Type 0} where
  abbrev pub timed : Bool → World S → World S
  timed kernel w = record w { procs = proc_time w.procs kernel }

  abbrev pub leave : Option (ℕ × World S) → Option (ℕ × World S)
  leave none = none
  leave (some (eax, w)) = some (eax, timed false w)

module _ {S Text : Type 0} (server : FileServer Text S) (text : Bytes → ℕ → Text) (fresh : Bytes)
    (heap_bottom : ℕ) (others : Regs → World S → Option (ℕ × World S)) where
  -- The `switch` of `do_syscall`: the value of EAX.
  unfoldable pub dispatch : Regs → World S → Option (ℕ × World S)
  dispatch r w =
      if r.eax == sys_access
      then do_access server text fresh heap_bottom w r.ecx r.edx
      else if r.eax == sys_close
      then do_close server text fresh heap_bottom w r.ecx
      else if r.eax == sys_dup
      then do_dup server text fresh heap_bottom w r.ecx
      else if r.eax == sys_dup2
      then do_dup2 server text fresh heap_bottom w r.ecx r.edx
      else if r.eax == sys_fcntl
      then do_fcntl server text fresh heap_bottom w r.ecx r.edx r.ebx
      else if r.eax == sys_fstat
      then do_fstat server text fresh heap_bottom w r.ecx r.edx
      else if r.eax == sys_ioctl
      then do_ioctl server text fresh heap_bottom w r.ecx r.edx r.ebx
      else if r.eax == sys_lseek
      then do_lseek server text fresh heap_bottom w r.ecx r.edx r.ebx
      else if r.eax == sys_open
      then do_open server text fresh heap_bottom w r.ecx r.edx r.ebx
      else if r.eax == sys_read
      then do_read server text fresh heap_bottom w r.ecx r.edx r.ebx
      else if r.eax == sys_stat
      then do_stat server text fresh heap_bottom w r.ecx r.edx
      else if r.eax == sys_write
      then do_write server text fresh heap_bottom w r.ecx r.edx r.ebx
      else if r.eax == sys_chdir
      then do_chdir server text fresh heap_bottom w r.ecx
      else if r.eax == sys_chroot
      then do_chroot server text fresh heap_bottom w r.ecx
      else if r.eax == sys_link
      then do_link server text fresh heap_bottom w r.ecx r.edx
      else if r.eax == sys_unlink
      then do_unlink server text fresh heap_bottom w r.ecx
      else if r.eax == sys_chmod
      then do_chmod server text fresh heap_bottom w r.ecx r.edx
      else if r.eax == sys_chown
      then do_chown server text fresh heap_bottom w r.ecx r.edx r.ebx
      else if r.eax == sys_umask
      then do_umask server text fresh heap_bottom w r.ecx
      else if r.eax == sys_sync
      then some (r.eax, do_sync server text fresh heap_bottom w)
      else others r w

  unfoldable pub do_syscall : Regs → World S → Option (ℕ × World S)
  unfolding dispatch
  do_syscall r w = leave (dispatch r (timed true w))
