-- ===== src/Process/Tests.antt =====
-- A process table with two processes that are ready, and the theorems of the process table on it.
use brainix_old.Base.{◌<◌, ◌≡◌, ◌≢◌, refl, true, none, some, [], ◌∷◌, arith}
use brainix_old.Signal.Set.{sigemptyset}
use brainix_old.Ring.{self_link}
use brainix_old.Ring.Queue.{append_head, append_links, head_without}
use brainix_old.Process.{
  Procs, num_procs, nonexist, blocked, ready, proc_init, proc_enq, proc_deq, proc_create,
  proc_destroy, proc_sched, proc_sleep, proc_wakeup, calc_next_pid, used, switch_to, create_in,
  claim,
}
use brainix_old.Process.Valid.{IsValid, proc_init-IsValid, proc_enq-IsValid}
use brainix_old.Process.Pid.{Claimed, calc_next_pid_lem}
use brainix_old.Process.Sched.{proc_sched_lem, proc_sleep_lem, proc_wakeup_lem}
use brainix_old.Process.RoundRobin.{IsRunning, slices, slices_lem}
use brainix_old.Process.Lifecycle.{Created, proc_create_lem, proc_destroy_lem}

abbrev blank : Procs
blank = record {
  proc = λ k. record {
    egid = 0;
    euid = 0;
    gid = 0;
    pgrp = 0;
    pid = 0;
    ppid = 0;
    uid = 0;
    utime = 0;
    stime = 0;
    cutime = 0;
    cstime = 0;
    state = 0;
    kernel_time = 0;
  };
  links = record { next = λ k. 0; prev = λ k. 0 };
  ready_q = none;
  current_proc = 0;
  last_pid = 0;
  signals = record {
    blocked = λ p. sigemptyset;
    pending = λ p. sigemptyset;
    action =
        λ p k. record { sa_handler = 0; sa_mask = sigemptyset; sa_flags = 0; sa_sigaction = 0 };
  };
}

abbrev one : Procs
one = proc_enq (proc_init blank) 1

abbrev two : Procs
two = proc_enq one 2

-- Process 1 runs.
abbrev running : Procs
running = (proc_sched two).0

-- Process 2 sleeps.
abbrev asleep : Procs
asleep = (proc_sleep running 2).0

one-IsValid : IsValid one (1 ∷ [])
one-IsValid = proc_enq-IsValid (proc_init blank) [] 1 (proc_init-IsValid blank) (omega arith) refl

two-IsValid : IsValid two (1 ∷ 2 ∷ [])
two-IsValid = proc_enq-IsValid one (1 ∷ []) 2 one-IsValid (omega arith) refl

proc_sched_lem_example : IsValid running (1 ∷ 2 ∷ []) × (running.current_proc ≡ 1)
unfolding proc_enq proc_init
proc_sched_lem_example = proc_sched_lem two (1 ∷ 2 ∷ []) two-IsValid

running-IsRunning : IsRunning running (1 ∷ 2 ∷ [])
unfolding proc_enq proc_init
running-IsRunning =
    let run = proc_sched_lem two (1 ∷ 2 ∷ []) two-IsValid in
    record { valid = run.0; first = run.1; busy = refl }

slices_lem_example : some 2 ≡ some (slices 1 running).current_proc
slices_lem_example = slices_lem 1 running (1 ∷ 2 ∷ []) running-IsRunning (omega arith)

running_1 : (running.proc 1).state ≡ ready
unfolding proc_enq proc_init proc_sched switch_to append_head append_links head_without self_link
running_1 = refl

proc_sleep_lem_example :
    IsValid (proc_sleep running 1).0 (2 ∷ []) × ((proc_sleep running 1).0.current_proc ≡ 2)
unfolding proc_enq proc_init proc_sched switch_to append_head append_links head_without self_link
proc_sleep_lem_example =
    proc_sleep_lem running (1 ∷ 2 ∷ []) 1 running-IsRunning.valid (omega arith) running_1

running_2 : (running.proc 2).state ≡ ready
unfolding proc_enq proc_init proc_sched switch_to append_head append_links head_without self_link
running_2 = refl

asleep-IsValid : IsValid asleep (1 ∷ [])
asleep-IsValid =
    (proc_sleep_lem running (1 ∷ 2 ∷ []) 2 running-IsRunning.valid (omega arith) running_2).0

asleep_2 : (asleep.proc 2).state ≡ blocked
unfolding proc_enq proc_deq proc_init proc_sched proc_sleep switch_to append_head append_links
    head_without self_link
asleep_2 = refl

asleep_current : asleep.current_proc ≡ 1
unfolding proc_enq proc_deq proc_init proc_sched proc_sleep switch_to append_head append_links
    head_without self_link
asleep_current = refl

proc_wakeup_lem_example :
    IsValid (proc_wakeup asleep 2).0 (1 ∷ 2 ∷ [])
    × ((proc_wakeup asleep 2).0.current_proc ≡ asleep.current_proc)
proc_wakeup_lem_example = proc_wakeup_lem asleep (1 ∷ []) 2 asleep-IsValid (omega arith) asleep_2

two_last : two.last_pid < num_procs
unfolding proc_enq proc_init
two_last = omega arith

two_current : two.current_proc < num_procs
unfolding proc_enq proc_init
two_current = omega arith

calc_next_pid_lem_example : Claimed (used two) two.last_pid (calc_next_pid two)
calc_next_pid_lem_example = calc_next_pid_lem two two_last

proc_create_lem_example : Created (λ p. true) two (1 ∷ 2 ∷ []) (proc_create (λ p. true) two)
proc_create_lem_example =
    proc_create_lem (λ p. true) two (1 ∷ 2 ∷ []) two-IsValid two_current two_last

-- Slots 1 and 2 are in use, so the first process that is created gets slot 3.
first_pid : (proc_create (λ p. true) two).0 ≡ some 3
unfolding proc_enq proc_init append_head append_links self_link proc_create create_in calc_next_pid
    claim
first_pid = refl

proc_destroy_lem_example :
    IsValid (proc_destroy two 1) (2 ∷ []) × (((proc_destroy two 1).proc 1).state ≡ nonexist)
proc_destroy_lem_example = proc_destroy_lem two (1 ∷ 2 ∷ []) 1 two-IsValid (omega arith)

blocked_not_ready : blocked ≢ ready
blocked_not_ready = λ e. omega arith
