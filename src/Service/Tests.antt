-- ===== src/Service/Tests.antt =====
-- link("ls", "/") by a process, on the file system of the tests of Server.
use brainix_old.Base.{
  ℕ, zero, suc, ◌+◌, refl, Option, none, some, [], ◌∷◌, ◌==◌, arith, if◌then◌else◌, Whenever,
}
use brainix_old.Base.Bytes.{Bytes}
use brainix_old.Perm.Tests.{procs}
use brainix_old.Path.{Text}
use brainix_old.Server.{Env}
use brainix_old.Server.Users.{Rooted}
use brainix_old.Server.Tests.{super_env, one_mounted, few_users}
use brainix_old.Syscall.{Regs, World}
use brainix_old.Syscall.Dispatch.{do_syscall}
use brainix_old.Syscall.Calls.{registers, link_call}
use brainix_old.Service.{Machine, service, begin_for}
use brainix_old.Service.Calls.{After, begun, do_syscall-Even}

-- The string at an address, of ten characters at most.
abbrev chars : ℕ → Bytes → ℕ → Text
chars zero m a = []
chars (suc n) m a = let rest = chars n m (a + 1) in if m a == 0 then [] else m a ∷ rest

abbrev ioctl : ℕ → (pid min request arg : ℕ) → ℕ × ℕ
ioctl d pid min request arg = (d, 0)

abbrev no_others : Regs → World (Machine ℕ) → Option (ℕ × World (Machine ℕ))
no_others r w = none

-- All processes are those of the super user.
abbrev root_env : Env ℕ
root_env = record super_env {
  procs = record procs { proc = λ k. record (procs.proc k) { euid = 0 } };
}

-- "ls" at 5000 and "/" at 5010.
abbrev world : World (Machine ℕ)
world = record {
  fs = none;
  memory =
      λ a. if a == 5000 then b'l' else if a == 5001 then b's' else if a == 5010 then b'/' else 0;
  errno = 0;
  procs = root_env.procs;
}

world-Rooted : Rooted (begun world root_env one_mounted).0 one_mounted
unfolding begin_for
world-Rooted k at = (ground arith, ground arith)

do_syscall-Even_example : Whenever (After (begun world root_env one_mounted).0 one_mounted) (
    do_syscall
      (service ioctl)
      (chars 10)
      (λ k. 0)
      4096
      no_others
      (registers (link_call 5000 5010))
      (record world { fs = some (root_env, one_mounted) }))
do_syscall-Even_example =
    do_syscall-Even ioctl (chars 10) (λ k. 0) 4096 no_others (link_call 5000 5010) world root_env
      one_mounted refl few_users world-Rooted
