-- ===== src/Perm/Tests.antt =====
-- A file that its owner may read and write, and others may read.
use brainix_old.Base.{◌≡◌, ◌↔◌, ◌⊎◌, refl, true, false, ◌==◌, arith, if◌then◌else◌, some}
use brainix_old.Signal.Set.{sigemptyset}
use brainix_old.Process.{Procs, ready}
use brainix_old.Inode.{Inode}
use brainix_old.Perm.{perm}
use brainix_old.Perm.Grant.{Entitled, perm_lem}

-- The mode is 0644, and the owner user 7.
abbrev pub file : Inode
file = record {
  raw = λ a. if a == 0 then 164 else if a == 1 then 129 else if a == 2 then 7 else 0;
  dev = 9;
  ino = 5;
  count = 1;
  mounted = false;
  dirty = false;
}

-- All processes are those of user 7 in group 3.
abbrev pub procs : Procs
procs = record {
  proc = λ k. record {
    egid = 3;
    euid = 7;
    gid = 3;
    pgrp = 0;
    pid = k;
    ppid = 0;
    uid = 7;
    utime = 0;
    stime = 0;
    cutime = 0;
    cstime = 0;
    state = ready;
    kernel_time = 0;
  };
  links = record { next = λ k. k; prev = λ k. k };
  ready_q = some 9;
  current_proc = 9;
  last_pid = 9;
  signals = record {
    blocked = λ p. sigemptyset;
    pending = λ p. sigemptyset;
    action =
        λ p k. record { sa_handler = 0; sa_mask = sigemptyset; sa_flags = 0; sa_sigaction = 0 };
  };
}

may_write : perm procs 9 false (some file) 2 false ≡ true
unfolding perm
may_write = refl

may_not_execute : perm procs 9 false (some file) 1 false ≡ false
unfolding perm
may_not_execute = refl

perm_lem_example :
    (perm procs 9 false (some file) 6 false ≡ true)
    ↔ ((false ≡ true) ⊎ Entitled procs 9 false file 6 false)
perm_lem_example = perm_lem procs 9 false file 6 false (omega arith)
