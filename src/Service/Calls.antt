-- ===== src/Service/Calls.antt =====
-- The system calls on paths that open no file, from the registers of the caller to the inode table: src/kernel/syscall.c and
-- src/fs/main.c over src/fs/link.c, src/fs/dir.c, src/fs/stat.c and src/fs/perm.c.
use brainix_old.Base.{
  ℕ, true, false, ◌^◌, ◌<◌, ◌≡◌, refl, Bool, Option, none, some, ltb, leb, arith, inl, inr,
  Bool-cases, Whenever,
}
use brainix_old.Base.Bytes.{Bytes}
use brainix_old.Path.{Text}
use brainix_old.Server.{Env, State}
use brainix_old.Server.Users.{users, Rooted}
use brainix_old.Server.Calls.{
  PathCall, run, Balanced, run-Balanced, access_call as access_of, chmod_call as chmod_of,
  chown_call as chown_of, stat_call as stat_of, unlink_call as unlink_of, chdir_call as chdir_of,
  link_call as link_of,
}
use brainix_old.Syscall.{Regs, World}
use brainix_old.Syscall.Server.{caller}
use brainix_old.Syscall.Dispatch.{do_syscall, leave, timed}
use brainix_old.Syscall.Calls.{
  Call, access_call, chmod_call, chown_call, stat_call, unlink_call, chdir_call, link_call,
  close_call, dup_call, dup2_call, lseek_call, umask_call, fstat_call, read_call, write_call,
  sync_call, registers, told, intended, do_syscall_lem,
}
use brainix_old.Service.{Machine, begin_for, service, settle}

-- The calls on paths.
abbrev pub on_path : Call → Bool
on_path (access_call path amode) = true
on_path (chdir_call path) = true
on_path (link_call path1 path2) = true
on_path (unlink_call path) = true
on_path (chmod_call path mode) = true
on_path (chown_call path owner group) = true
on_path (stat_call path buf) = true
on_path (close_call fildes) = false
on_path (dup_call fildes) = false
on_path (dup2_call fildes fildes2) = false
on_path (lseek_call fildes offset whence) = false
on_path (umask_call cmask) = false
on_path (fstat_call fildes buf) = false
on_path (read_call fildes buf nbyte) = false
on_path (write_call fildes buf nbyte) = false
on_path sync_call = false

module _ {Dev : Type 0} where
  -- If the file system serves on, the uses of inodes are balanced.
  abbrev pub Even : Env Dev → State Dev → Machine Dev → Type 0
  Even e s none = Unit
  Even e s (some (e', t)) = Balanced e s (0, t)

  abbrev pub After : Env Dev → State Dev → ℕ × World (Machine Dev) → Type 0
  After e s (r, w) = Even e s w.fs

  -- The file system as it works for the caller of a system call.
  abbrev pub begun : World (Machine Dev) → Env Dev → State Dev → Env Dev × State Dev
  begun w e s = begin_for (caller (timed true w)) (e, s)

module _ {Dev : Type 0} (driver_ioctl : Dev → (pid min request arg : ℕ) → Dev × ℕ)
    (text : Bytes → ℕ → Text) (fresh : Bytes) (heap_bottom : ℕ)
    (others : Regs → World (Machine Dev) → Option (ℕ × World (Machine Dev))) where
  told-After :
      (e e' : Env Dev) (s : State Dev) (w : World (Machine Dev)) (r : Option (ℕ × State Dev))
      → Whenever (Balanced e s) r
      → Whenever
          (After e s)
          (leave (told (service driver_ioctl) text fresh heap_bottom others w (settle e' r)))
  told-After e e' s w none h = tt
  told-After e e' s w (some (r, t)) h = elim (Bool-cases (leb (2 ^ 31) r)) [
    | inl c ↦ rw c h
    | inr c ↦ rw c h
  ]

  balanced :
      (w : World (Machine Dev)) (e : Env Dev) (s : State Dev)
      → ((j : ℕ) → users e s j < 254)
      → Rooted (begun w e s).0 s
      → (c : PathCall)
      → Whenever (After (begun w e s).0 s) (
          leave (
            told
              (service driver_ioctl)
              text
              fresh
              heap_bottom
              others
              (timed true (record w { fs = some (e, s) }))
              (settle (begun w e s).0 (run (begun w e s).0 c (begun w e s).1))))
  unfolding begin_for
  balanced w e s few rooted c =
      let b = begun w e s in
      told-After b.0 b.0 s (timed true (record w { fs = some (e, s) })) (run b.0 c b.1)
        (run-Balanced b.0 b.1 few rooted c)

  intended-Even :
      (c : Call) (w : World (Machine Dev)) (e : Env Dev) (s : State Dev)
      → on_path c ≡ true
      → ((j : ℕ) → users e s j < 254)
      → Rooted (begun w e s).0 s
      → Whenever (After (begun w e s).0 s) (
          leave (
            intended
              (service driver_ioctl)
              text
              fresh
              heap_bottom
              others
              c
              (timed true (record w { fs = some (e, s) }))))
  unfolding service begin_for
  intended-Even (access_call path amode) w e s on few rooted =
      balanced w e s few rooted (access_of (text w.memory path) amode)
  intended-Even (chdir_call path) w e s on few rooted =
      balanced w e s few rooted (chdir_of (text w.memory path))
  intended-Even (link_call path1 path2) w e s on few rooted =
      balanced w e s few rooted (link_of (text w.memory path1) (text w.memory path2))
  intended-Even (unlink_call path) w e s on few rooted =
      balanced w e s few rooted (unlink_of (text w.memory path))
  intended-Even (chmod_call path mode) w e s on few rooted =
      balanced w e s few rooted (chmod_of (text w.memory path) mode)
  intended-Even (chown_call path owner group) w e s on few rooted =
      balanced w e s few rooted (chown_of (text w.memory path) owner group)
  intended-Even (stat_call path buf) w e s on few rooted = elim (Bool-cases (ltb buf heap_bottom)) [
    | inl c ↦ rw c λ j. refl
    | inr c ↦ rw c (balanced w e s few rooted (stat_of (text w.memory path)))
  ]
  intended-Even (close_call fildes) w e s on few rooted = absurd (ground arith)
  intended-Even (dup_call fildes) w e s on few rooted = absurd (ground arith)
  intended-Even (dup2_call fildes fildes2) w e s on few rooted = absurd (ground arith)
  intended-Even (lseek_call fildes offset whence) w e s on few rooted = absurd (ground arith)
  intended-Even (umask_call cmask) w e s on few rooted = absurd (ground arith)
  intended-Even (fstat_call fildes buf) w e s on few rooted = absurd (ground arith)
  intended-Even (read_call fildes buf nbyte) w e s on few rooted = absurd (ground arith)
  intended-Even (write_call fildes buf nbyte) w e s on few rooted = absurd (ground arith)
  intended-Even sync_call w e s on few rooted = absurd (ground arith)

  -- Each of the calls access(), chdir(), link(), unlink(), chmod(), chown() and stat(), from the
  -- registers of the caller to the inode table and back, leaves each inode with as many users as
  -- before, but for those that the directories of the caller make, whatever it returns, unless it
  -- ends in a panic or a fault. This holds where the caller's directories are in use and have links, and no
  -- inode has 254 users before.
  pub do_syscall-Even :
      (c : Call) (w : World (Machine Dev)) (e : Env Dev) (s : State Dev)
      → on_path c ≡ true
      → ((j : ℕ) → users e s j < 254)
      → Rooted (begun w e s).0 s
      → Whenever (After (begun w e s).0 s) (
          do_syscall
            (service driver_ioctl)
            text
            fresh
            heap_bottom
            others
            (registers c)
            (record w { fs = some (e, s) }))
  do_syscall-Even c w e s on few rooted =
      rw
        (do_syscall_lem (service driver_ioctl) text fresh heap_bottom others c
          (record w { fs = some (e, s) }))
        (intended-Even c w e s on few rooted)
