-- ===== src/Kill/Tests.antt =====
-- Two processes of one user, and the theorems on signals on them.
use brainix_old.Base.{true, ◌≡◌, refl, false, some, arith, ◌==◌, if◌then◌else◌}
use brainix_old.Base.Int.{pos}
use brainix_old.Signal.Set.{sigstop, sigcont, sigemptyset}
use brainix_old.Signal.Table.{sig_action, SigAction, sig_dfl}
use brainix_old.Process.{Procs, blocked, ready}
use brainix_old.Kill.{sig_srch, meant, sig_perm, do_kill}
use brainix_old.Kill.Deliver.{do_kill_delivers}
use brainix_old.Kill.Pending.{ignored}
use brainix_old.Kill.Search.{Reported, do_kill_lem, target}

abbrev default : SigAction
default = record { sa_handler = sig_dfl; sa_mask = sigemptyset; sa_flags = 0; sa_sigaction = 0 }

-- Process 8 runs; process 9 sleeps, and SIGCONT is pending for it.
abbrev user : Procs
user = record {
  proc = λ k. record {
    egid = 5;
    euid = 5;
    gid = 5;
    pgrp = 8;
    pid = k;
    ppid = 0;
    uid = 5;
    utime = 0;
    stime = 0;
    cutime = 0;
    cstime = 0;
    state = if k == 8 then ready else if k == 9 then blocked else 0;
    kernel_time = 0;
  };
  links = record { next = λ k. k; prev = λ k. k };
  ready_q = some 8;
  current_proc = 8;
  last_pid = 9;
  signals = record {
    blocked = λ p. sigemptyset;
    pending = λ p k. k == sigcont;
    action = λ p k. default;
  };
}

do_kill_lem_example : Reported user (pos 9) (pos sigstop) (do_kill user (pos 9) (pos sigstop))
do_kill_lem_example = do_kill_lem user (pos 9) (pos sigstop)

meant_9 : target user 8 (pos 9) 9 ≡ true
unfolding sig_srch meant sig_perm
meant_9 = refl

not_ignored : ignored user 9 sigstop ≡ false
unfolding sig_action
not_ignored = refl

do_kill_delivers_example : (do_kill user (pos 9) (pos sigstop)).1.signals.pending 9 sigstop ≡ true
do_kill_delivers_example =
    do_kill_delivers user (pos 9) sigstop 9 (omega arith) (omega arith) meant_9 not_ignored
