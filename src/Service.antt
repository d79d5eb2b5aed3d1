-- ===== src/Service.antt =====
-- The operations of src/fs as what the loop of src/fs/main.c calls: the interface `FileServer` of the
-- system calls, with the operations of Server. A call that panics or faults stops the file system,
-- whose state is none from there on.
pub mod Calls
mod Tests
use brainix_old.Base.{ℕ, ◌-◌, ◌^◌, true, false, Option, none, some, ltb, ◌==◌, if◌then◌else◌, ◌>>=◌}
use brainix_old.Base.Bytes.{Bytes, word}
use brainix_old.Base.Int.{ℤ, pos, negsuc}
use brainix_old.Fildes.{
  Files, Reply, done, failed, fault, ebadf, do_fs_dup, do_fs_dup2, do_fs_fcntl, do_fs_lseek,
}
use brainix_old.Perm.{do_fs_umask}
use brainix_old.Path.{Text}
use brainix_old.Server.{
  set_err, Env, State, Stat, minus, do_fs_link, do_fs_unlink, do_fs_chroot, do_fs_chdir,
  do_fs_fstat, do_fs_stat, access_path, chmod_path, chown_path,
}
use brainix_old.Server.Open.{do_fs_open, do_fs_close, do_fs_ioctl}
use brainix_old.Server.Rw.{do_fs_read, do_fs_write}
use brainix_old.Server.Disk.{do_fs_sync}
use brainix_old.Syscall.{FileServer, empty}

-- The number that a 32-bit word stands for as an int.
abbrev pub signed : ℕ → ℤ
signed w = if ltb w (2 ^ 31) then pos w else negsuc (2 ^ 32 - w - 1)

-- The file system's state, none after it has stopped.
abbrev pub Machine : Type 0 → Type 0
Machine Dev = Option (Env Dev × State Dev)

module _ {Dev : Type 0} where
  -- What the loop sets for each message: its sender, super_user and err_code.
  unfoldable pub begin_for : (from : ℕ) → Env Dev × State Dev → Env Dev × State Dev
  begin_for from (e, s) =
      (record e { from = from; super_user = (e.procs.proc from).euid == 0 }, set_err s 0)

  -- What a call on the descriptors returns, as the number that the message takes back.
  abbrev pub told_files : State Dev → Reply × Files → Option (ℕ × State Dev)
  told_files s (done r, f) = some (r, record s { files = f })
  told_files s (failed err, f) = some (minus err, set_err (record s { files = f }) err)
  told_files s (fault, f) = none

  abbrev pub told_fstat : State Dev → Option (ℕ × Option Stat) → Option (ℕ × State Dev)
  told_fstat s none = none
  told_fstat s (some (r, none)) = some (r, set_err s ebadf)
  told_fstat s (some (r, some buf)) = some (r, s)

  abbrev pub without_stat : Option ((ℕ × Option Stat) × State Dev) → Option (ℕ × State Dev)
  without_stat none = none
  without_stat (some ((r, buf), s)) = some (r, s)

  abbrev pub without_buffer : Option ((ℕ × Bytes) × State Dev) → Option (ℕ × State Dev)
  without_buffer none = none
  without_buffer (some ((r, buf), s)) = some (r, s)

  abbrev pub settle : Env Dev → Option (ℕ × State Dev) → ℕ × Machine Dev
  settle e none = (0, none)
  settle e (some (r, s)) = (r, some (e, s))

  abbrev pub settle_read : Env Dev → Option ((ℕ × Bytes) × State Dev) → ℕ × (Bytes × Machine Dev)
  settle_read e none = (0, (empty, none))
  settle_read e (some ((r, b), s)) = (r, (b, some (e, s)))

  abbrev pub call : (Env Dev → State Dev → Option (ℕ × State Dev)) → Machine Dev → ℕ × Machine Dev
  call f none = (0, none)
  call f (some (e, s)) = settle e (f e s)

  abbrev pub call_read :
      (Env Dev → State Dev → Option ((ℕ × Bytes) × State Dev))
      → Machine Dev
      → ℕ × (Bytes × Machine Dev)
  call_read f none = (0, (empty, none))
  call_read f (some (e, s)) = settle_read e (f e s)

  unfoldable pub sync_machine : Machine Dev → Machine Dev
  sync_machine none = none
  sync_machine (some (e, s)) = do t ← do_fs_sync e s; some (e, t)

  abbrev pub begin_machine : (from : ℕ) → Machine Dev → Machine Dev
  begin_machine from none = none
  begin_machine from (some m) = some (begin_for from m)

  unfoldable pub umask_files : (from cmask : ℕ) → State Dev → ℕ × State Dev
  umask_files from cmask s =
      let (masks, old) = do_fs_umask s.files.cmask from cmask in
      (old, record s { files = record s.files { cmask = masks } })

  -- `driver_ioctl` is what a driver answers to ioctl().
  unfoldable pub service :
      (driver_ioctl : Dev → (pid min request arg : ℕ) → Dev × ℕ) → FileServer Text (Machine Dev)
  service driver_ioctl = record {
    begin = begin_machine;
    do_fs_access = λ path amode. call λ e s. access_path e s path amode;
    do_fs_close = λ fildes. call λ e s. do_fs_close e s fildes;
    do_fs_dup = λ fildes. call λ e s. told_files s (do_fs_dup s.files (signed fildes));
    do_fs_dup2 = λ fildes fildes2.
        call λ e s. told_files s (do_fs_dup2 s.files e.from (signed fildes) (signed fildes2));
    do_fs_fcntl = λ fildes cmd arg.
        call λ e s. told_files s (do_fs_fcntl s.files (signed fildes) cmd (signed arg));
    do_fs_ioctl = λ fildes request arg.
        call λ e s. some (do_fs_ioctl e driver_ioctl s (signed fildes) request arg);
    do_fs_lseek = λ fildes offset whence. call λ e s.
        told_files s
          (do_fs_lseek (λ k. word (s.fs.inode k).raw 4) s.files (signed fildes) offset whence);
    do_fs_open = λ path oflag mode. call λ e s. do_fs_open e s path oflag mode;
    do_fs_chdir = λ path. call λ e s. do_fs_chdir e s path;
    do_fs_chroot = λ path. call λ e s. do_fs_chroot e s path;
    do_fs_link = λ path1 path2. call λ e s. do_fs_link e s path1 path2;
    do_fs_unlink = λ path. call λ e s. do_fs_unlink e s path;
    do_fs_chmod = λ path mode. call λ e s. chmod_path e s path mode;
    do_fs_chown = λ path owner group. call λ e s. chown_path e s path owner group;
    do_fs_umask = λ cmask. call λ e s. some (umask_files e.from cmask s);
    do_fs_fstat = λ fildes. call λ e s. told_fstat s (do_fs_fstat e s (signed fildes));
    do_fs_stat = λ path. call λ e s. without_stat (do_fs_stat e s path);
    do_fs_read = λ fildes buf nbyte. call_read λ e s. do_fs_read e s (signed fildes) buf nbyte;
    do_fs_write =
        λ fildes buf nbyte. call λ e s. without_buffer (do_fs_write e s (signed fildes) buf nbyte);
    do_fs_sync = sync_machine;
  }
