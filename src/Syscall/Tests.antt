-- ===== src/Syscall/Tests.antt =====
-- A file system that only counts its calls, and system calls to it.
use brainix_old.Base.{ℕ, ◌+◌, ◌^◌, ◌-◌, ◌≡◌, true, Option, none}
use brainix_old.Signal.Set.{sigemptyset}
use brainix_old.Process.{ready}
use brainix_old.Syscall.{FileServer, World, Regs}
use brainix_old.Syscall.Dispatch.{do_syscall, leave, timed}
use brainix_old.Syscall.Calls.{read_call, registers, intended, do_syscall_lem}

-- Reading gives nines; closing fails with EBADF, which is 4.
abbrev counting : FileServer ℕ ℕ
counting = record {
  begin = λ from s. s + 1;
  do_fs_access = λ path amode s. (0, s);
  do_fs_close = λ fildes s. (2 ^ 32 - 4, s);
  do_fs_dup = λ fildes s. (fildes + 1, s);
  do_fs_dup2 = λ fildes fildes2 s. (fildes2, s);
  do_fs_fcntl = λ fildes cmd arg s. (0, s);
  do_fs_ioctl = λ fildes request arg s. (0, s);
  do_fs_lseek = λ fildes offset whence s. (offset, s);
  do_fs_open = λ path oflag mode s. (3, s);
  do_fs_chdir = λ path s. (0, s);
  do_fs_chroot = λ path s. (0, s);
  do_fs_link = λ path1 path2 s. (0, s);
  do_fs_unlink = λ path s. (0, s);
  do_fs_chmod = λ path mode s. (0, s);
  do_fs_chown = λ path owner group s. (0, s);
  do_fs_umask = λ cmask s. (18, s);
  do_fs_fstat = λ fildes s. (0, s);
  do_fs_stat = λ path s. (0, s);
  do_fs_read = λ fildes buf nbyte s. (nbyte, ((λ k. 9), s));
  do_fs_write = λ fildes buf nbyte s. (nbyte, s);
  do_fs_sync = λ s. s;
}

abbrev world : World ℕ
world = record {
  fs = 0;
  memory = λ a. 0;
  errno = 0;
  procs = record {
    proc = λ k. record {
      egid = 0;
      euid = 0;
      gid = 0;
      pgrp = 0;
      pid = 1;
      ppid = 0;
      uid = 0;
      utime = 0;
      stime = 0;
      cutime = 0;
      cstime = 0;
      state = ready;
      kernel_time = 0;
    };
    links = record { next = λ k. k; prev = λ k. k };
    ready_q = none;
    current_proc = 1;
    last_pid = 1;
    signals = record {
      blocked = λ p. sigemptyset;
      pending = λ p. sigemptyset;
      action =
          λ p k. record { sa_handler = 0; sa_mask = sigemptyset; sa_flags = 0; sa_sigaction = 0 };
    };
  };
}

abbrev call : Regs → World ℕ → Option (ℕ × World ℕ)
call = do_syscall counting (λ m a. a) (λ k. 0) 4096 (λ r w. none)

do_syscall_lem_example :
    call (registers (read_call 3 5000 10)) world
    ≡ leave (
        intended counting
          (λ m a. a)
          (λ k. 0)
          4096
          (λ r w. none)
          (read_call 3 5000 10)
          (timed true world))
do_syscall_lem_example =
    do_syscall_lem counting (λ m a. a) (λ k. 0) 4096 (λ r w. none) (read_call 3 5000 10) world
