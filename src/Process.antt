-- ===== src/Process.antt =====
-- The process table, the ready queue and the scheduler: src/kernel/process.c.
-- A `proc_t *` is the index of its slot in `proc[NUM_PROCS]`; the `prev` and `next` fields of all
-- slots are the two maps of `links`. The static `pid` of `calc_next_pid` is `last_pid`, and the
-- signal tables of src/kernel/signal.c, which creating a process resets, are `signals`.
-- The tasks of src/kernel/task.c are no part of the state: whether one can be made is an argument.
pub mod Lifecycle
pub mod Pid
pub mod RoundRobin
pub mod Sched
mod Tests
pub mod Valid
use brainix_old.Base.{
  ℕ, zero, suc, ◌+◌, ◌%◌, ◌^◌, ◌≡◌, Bool, true, false, ◌&&◌, ◌||◌, Option, none, some, ltb, ◌==◌,
  if◌then◌else◌, update, not,
}
use brainix_old.Base.Int.{ℤ, pos, negsuc}
use brainix_old.Signal.Table.{Signals, sig_init}
use brainix_old.Ring.{Links, self_link, unlink}
use brainix_old.Ring.Queue.{head_without, append_links, append_head}

abbrev pub num_procs : ℕ
num_procs = 32

abbrev pub idle_pid : ℕ
idle_pid = 0

-- Task states.
abbrev pub nonexist : ℕ
nonexist = 0

abbrev pub blocked : ℕ
blocked = 1

abbrev pub ready : ℕ
ready = 2

abbrev pub zombie : ℕ
zombie = 3

pub record Proc : Type 0 where
  pub egid : ℕ
  pub euid : ℕ
  pub gid : ℕ
  pub pgrp : ℕ
  pub pid : ℕ
  pub ppid : ℕ
  pub uid : ℕ
  pub utime : ℕ
  pub stime : ℕ
  pub cutime : ℕ
  pub cstime : ℕ
  pub state : ℕ
  pub kernel_time : ℕ

pub record Procs : Type 0 where
  pub proc : ℕ → Proc
  pub links : Links
  pub ready_q : Option ℕ
  pub current_proc : ℕ
  pub last_pid : ℕ
  pub signals : Signals

abbrev set_proc : Procs → ℕ → Proc → Procs
set_proc s k p = record s { proc = update s.proc k p }

-- The loop of `proc_init` over the table.
init_slot : Procs → ℕ → Proc
init_slot s k =
    if ltb k num_procs then record (s.proc k) { pid = k; state = nonexist } else s.proc k

idle_slot : Proc → Proc
idle_slot p = record p {
  egid = 0;
  euid = 0;
  gid = 0;
  pgrp = 0;
  pid = 0;
  ppid = 0;
  uid = 0;
  utime = 0;
  stime = 0;
  cutime = 0;
  cstime = 0;
  state = ready;
  kernel_time = 0;
}

init_links : Links → Links
init_links l = record {
  next = λ k. if ltb k num_procs then k else l.next k;
  prev = λ k. if ltb k num_procs then k else l.prev k;
}

unfoldable pub proc_init : Procs → Procs
unfolding init_slot idle_slot init_links
proc_init s = record s {
  proc = update (init_slot s) idle_pid (idle_slot (init_slot s idle_pid));
  links = init_links s.links;
  ready_q = none;
  current_proc = idle_pid;
  signals = sig_init s.signals idle_pid;
}

pub data Claim : Type 0 where
  found : ℕ → Claim
  full : Claim
  out_of_fuel : Claim

-- The do-while loop of `calc_next_pid`: `used` says whether a slot's state is not NONEXIST.
unfoldable pub claim : (ℕ → Bool) → ℕ → ℕ → ℕ → Claim
claim used zero bookmark pid = out_of_fuel
claim used (suc fuel) bookmark pid =
    let pid' = (pid + 1) % num_procs in
    let again = claim used fuel bookmark pid' in
    if (pid' == bookmark) && used pid' then full else if used pid' then again else found pid'

abbrev pub used : Procs → ℕ → Bool
used s k = not ((s.proc k).state == nonexist)

unfoldable pub calc_next_pid : Procs → Claim
unfolding claim
calc_next_pid s = claim (used s) num_procs s.last_pid s.last_pid

unfoldable pub proc_enq : Procs → ℕ → Procs
proc_enq s p = record s {
  proc = update s.proc p (record (s.proc p) { state = ready });
  links = append_links s.links s.ready_q p;
  ready_q = append_head s.ready_q p;
}

unfoldable pub proc_deq : Procs → ℕ → ℕ → Procs
proc_deq s p st = record s {
  proc = update s.proc p (record (s.proc p) { state = st });
  ready_q = head_without s.links s.ready_q p;
  links = self_link (unlink s.links p) p;
}

-- The credentials and times that `proc_create` fills in.
new_slot : Procs → ℕ → Proc
new_slot s p =
    let parent = s.proc (s.proc s.current_proc).pid in
    record (s.proc p) {
      egid = parent.egid;
      euid = parent.euid;
      gid = parent.gid;
      pgrp = parent.pgrp;
      pid = p;
      ppid = parent.pid;
      uid = parent.uid;
      utime = 0;
      stime = 0;
      cutime = 0;
      cstime = 0;
      kernel_time = 0;
    }

abbrev init_signals : Procs → ℕ → Procs
init_signals s p = record s { signals = sig_init s.signals p }

-- `proc_create` behind the slot that it claims.
unfoldable pub create_in : (created : ℕ → Bool) → Procs → Claim → Option ℕ × Procs
unfolding new_slot
create_in created s (found p) =
    let claimed = record s { last_pid = p } in
    if created p
    then (some p, init_signals (proc_enq (set_proc claimed p (new_slot claimed p)) p) p)
    else (none, claimed)
create_in created s full = (none, s)
create_in created s out_of_fuel = (none, s)

-- `created p` is what `task_create` returns for the slot `p`. No result means -1.
unfoldable pub proc_create : (created : ℕ → Bool) → Procs → Option ℕ × Procs
proc_create created s = create_in created s (calc_next_pid s)

-- `for (j = 0; j < NUM_PROCS; j++) if (proc[j].pgrp == pid) proc[j].pgrp = 0;`
orphan_group : Procs → ℕ → Procs
orphan_group s p = record s {
  proc = λ j.
      if ltb j num_procs && ((s.proc j).pgrp == p)
      then record (s.proc j) { pgrp = 0 }
      else s.proc j;
}

unfoldable pub proc_destroy : Procs → ℕ → Procs
unfolding orphan_group
proc_destroy s p =
    if (s.proc p).state == nonexist
    then s
    else proc_deq (if (s.proc p).pgrp == p then orphan_group s p else s) p nonexist

-- The second component is the process that `task_switch` is called for, if it is.
unfoldable pub switch_to : Procs → ℕ → Procs × Option ℕ
switch_to s p =
    if p == s.current_proc then (s, none) else (record s { current_proc = p }, some (s.proc p).pid)

unfoldable pub proc_sched : Procs → Procs × Option ℕ
unfolding switch_to
proc_sched s = elim s.ready_q [
  | none ↦ switch_to s (s.links.next idle_pid)
  | some h ↦
      if (s.current_proc == idle_pid) || ((s.proc s.current_proc).state == blocked)
      then switch_to s h
      else switch_to (record s { ready_q = some (s.links.next h) }) (s.links.next h)
]

unfoldable pub proc_sleep : Procs → ℕ → Procs × Option ℕ
proc_sleep s p =
    if not ((s.proc p).state == ready)
    then (s, none)
    else if p == s.current_proc
    then proc_sched (proc_deq s p blocked)
    else (proc_deq s p blocked, none)

unfoldable pub proc_wakeup : Procs → ℕ → Procs × Option ℕ
proc_wakeup s p =
    if not ((s.proc p).state == blocked)
    then (s, none)
    else let woken = proc_enq s p in
      if p == woken.links.next p then proc_sched woken else (woken, none)

-- `proc_nap` only schedules: its sleep is commented out.
unfoldable pub proc_nap : Procs → Procs × Option ℕ
proc_nap s = proc_sched s

-- The `switch` of `proc_info`, with the requests of inc/const.h.
unfoldable pub proc_field : Proc → ℕ → ℕ
proc_field p request =
    if request == 0
    then p.egid
    else if request == 1
    then p.euid
    else if request == 2
    then p.gid
    else if request == 3
    then p.pgrp
    else if request == 4
    then p.pid
    else if request == 5
    then p.ppid
    else if request == 6
    then p.uid
    else if request == 7
    then p.utime
    else if request == 8
    then p.stime
    else if request == 9
    then p.cutime
    else if request == 10
    then p.cstime
    else if request == 11
    then p.state
    else 0

-- A slot outside the table is read by no caller: no result.
unfoldable pub proc_info : Procs → ℤ → ℕ → Option ℕ
proc_info s (pos k) request = if ltb k num_procs then some (proc_field (s.proc k) request) else none
proc_info s (negsuc k) request =
    if k == 0 then some (proc_field (s.proc (s.proc s.current_proc).pid) request) else none

abbrev set_current : Procs → Proc → Procs
set_current s p = set_proc s s.current_proc p

-- `kernel_time` is an unsigned char.
unfoldable pub proc_time : Procs → Bool → Procs
proc_time s kernel =
    let p = s.proc s.current_proc in
    set_current s (record p { kernel_time = (p.kernel_time + (if kernel then 1 else 255)) % 256 })

unfoldable pub proc_update : Procs → Procs
proc_update s =
    let p = s.proc s.current_proc in
    set_current s (
      if p.kernel_time == 0
      then record p { utime = (p.utime + 1) % 2 ^ 32 }
      else record p { stime = (p.stime + 1) % 2 ^ 32 })

unfoldable pub proc_setpgrp : Procs → Procs × ℕ
proc_setpgrp s =
    let p = s.proc s.current_proc in
    (set_proc s p.pid (record (s.proc p.pid) { pgrp = p.pid }), p.pid)
