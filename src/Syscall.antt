-- ===== src/Syscall.antt =====
-- System calls on files, from the library to the file system and back: src/lib/unistd.c,
-- src/lib/sys/stat.c, src/kernel/syscall.c, and the loop of fs_main in src/fs/main.c. The operations
-- of the file system are an interface, `FileServer`. The message goes to the file system and its
-- reply comes back in one step. A string or a buffer in a message is its contents: `text` is the
-- string at an address of the caller's memory, as strcpy() copies it, and `fresh` what kmalloc()
-- leaves in new memory; kmalloc() always has memory, and a path fits where strcpy() puts it. A result is a 32-bit word, negative from 2 ^ 31 on. `others` are the system
-- calls that do not go to the file system. No result is a panic, or a reply that never comes.
pub mod Calls
pub mod Client
pub mod Dispatch
pub mod Handler
pub mod Server
mod Tests
use brainix_old.Base.{
  ℕ, ◌+◌, ◌-◌, ◌%◌, ◌^◌, Bool, true, false, ◌&&◌, Option, none, some, ltb, leb, ◌==◌, if◌then◌else◌,
  ◌>>=◌,
}
use brainix_old.Process.{Procs, proc_time, proc_field}
use brainix_old.Inode.{Bytes}

abbrev pub efault : ℕ
efault = 21

pub record Regs : Type 0 where
  pub eax : ℕ
  pub ecx : ℕ
  pub edx : ℕ
  pub ebx : ℕ

-- `syscall`, whose assembly code moves its arguments to the registers.
abbrev pub syscall : (num a b c : ℕ) → Regs
syscall num a b c = record { eax = num; ecx = a; edx = b; ebx = c }

abbrev pub sys_access : ℕ
sys_access = 16

abbrev pub sys_close : ℕ
sys_close = 17

abbrev pub sys_dup : ℕ
sys_dup = 19

abbrev pub sys_dup2 : ℕ
sys_dup2 = 20

abbrev pub sys_fcntl : ℕ
sys_fcntl = 21

abbrev pub sys_fstat : ℕ
sys_fstat = 22

abbrev pub sys_ioctl : ℕ
sys_ioctl = 23

abbrev pub sys_lseek : ℕ
sys_lseek = 24

abbrev pub sys_open : ℕ
sys_open = 26

abbrev pub sys_read : ℕ
sys_read = 28

abbrev pub sys_stat : ℕ
sys_stat = 30

abbrev pub sys_write : ℕ
sys_write = 31

abbrev pub sys_chdir : ℕ
sys_chdir = 32

abbrev pub sys_chroot : ℕ
sys_chroot = 33

abbrev pub sys_link : ℕ
sys_link = 34

abbrev pub sys_sync : ℕ
sys_sync = 37

abbrev pub sys_unlink : ℕ
sys_unlink = 38

abbrev pub sys_chmod : ℕ
sys_chmod = 39

abbrev pub sys_chown : ℕ
sys_chown = 40

abbrev pub sys_umask : ℕ
sys_umask = 45

module _ (Text : Type 0) where
  -- A message to the file system: its operation, with the arguments of that operation.
  pub data Request : Type 0 where
    access_args : Text → ℕ → Request
    close_args : ℕ → Request
    dup_args : ℕ → Request
    dup2_args : ℕ → ℕ → Request
    fcntl_args : ℕ → ℕ → ℕ → Request
    ioctl_args : ℕ → ℕ → ℕ → Request
    lseek_args : ℕ → ℕ → ℕ → Request
    open_args : Text → ℕ → ℕ → Request
    chdir_args : Text → Request
    chroot_args : Text → Request
    link_args : Text → Text → Request
    unlink_args : Text → Request
    chmod_args : Text → ℕ → Request
    chown_args : Text → ℕ → ℕ → Request
    umask_args : ℕ → Request
    fstat_args : ℕ → Request
    stat_args : Text → Request
    read_args : ℕ → Bytes → ℕ → Request
    write_args : ℕ → Bytes → ℕ → Request
    sync_args : Request

  -- The functions that fs_main calls. `begin` sets super_user and err_code for the sender.
  pub record FileServer (S : Type 0) : Type 0 where
    pub begin : (from : ℕ) → S → S
    pub do_fs_access : Text → ℕ → S → ℕ × S
    pub do_fs_close : ℕ → S → ℕ × S
    pub do_fs_dup : ℕ → S → ℕ × S
    pub do_fs_dup2 : ℕ → ℕ → S → ℕ × S
    pub do_fs_fcntl : ℕ → ℕ → ℕ → S → ℕ × S
    pub do_fs_ioctl : ℕ → ℕ → ℕ → S → ℕ × S
    pub do_fs_lseek : ℕ → ℕ → ℕ → S → ℕ × S
    pub do_fs_open : Text → ℕ → ℕ → S → ℕ × S
    pub do_fs_chdir : Text → S → ℕ × S
    pub do_fs_chroot : Text → S → ℕ × S
    pub do_fs_link : Text → Text → S → ℕ × S
    pub do_fs_unlink : Text → S → ℕ × S
    pub do_fs_chmod : Text → ℕ → S → ℕ × S
    pub do_fs_chown : Text → ℕ → ℕ → S → ℕ × S
    pub do_fs_umask : ℕ → S → ℕ × S
    pub do_fs_fstat : ℕ → S → ℕ × S
    pub do_fs_stat : Text → S → ℕ × S
    pub do_fs_read : ℕ → Bytes → ℕ → S → ℕ × (Bytes × S)
    pub do_fs_write : ℕ → Bytes → ℕ → S → ℕ × S
    pub do_fs_sync : S → S

-- What becomes of a message: it is sent back with its result and its buffer, or it is freed.
pub data Reply : Type 0 where
  reply : ℕ → Bytes → Reply
  freed : Reply

-- The caller: the processes, its memory and its errno, and the file system's state.
pub record World (S : Type 0) : Type 0 where
  pub fs : S
  pub memory : Bytes
  pub errno : ℕ
  pub procs : Procs

abbrev pub empty : Bytes
empty a = 0
