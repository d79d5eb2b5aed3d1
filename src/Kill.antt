-- ===== src/Kill.antt =====
-- Sending signals and the system calls on signals: src/kernel/signal.c, over the signal tables and
-- the process table. A system call's result is an `Errno`: `ok` for 0, and an error number for -1
-- with that number in errno.
pub mod Deliver
pub mod Mask
pub mod Pending
pub mod Search
mod Tests
use brainix_old.Base.{
  ℕ, zero, suc, ◌+◌, Bool, true, false, ◌&&◌, ◌||◌, not, Option, none, some, ltb, ◌==◌,
  if◌then◌else◌,
}
use brainix_old.Base.Int.{ℤ, pos, negsuc}
use brainix_old.Signal.Set.{
  SigSet, num_sigs, add, del, deliverable, sigkill, sigstop, sigtstp, sigttin, sigttou, sigcont,
}
use brainix_old.Signal.Table.{
  Signals, SigAction, Effect, ignore, sig_action, set_blocked, set_pending, set_action,
}
use brainix_old.Process.{Procs, num_procs, nonexist, proc_wakeup}

pub data Errno : Type 0 where
  ok einval esrch eperm : Errno

abbrev pub init_pid : ℕ
init_pid = 7

-- `do_getpid` of src/kernel/syscall.c
abbrev pub getpid : Procs → ℕ
getpid s = (s.proc (s.proc s.current_proc).pid).pid

abbrev pub with_signals : Procs → Signals → Procs
with_signals s g = record s { signals = g }

-- Whether the process `to` is one that the argument of kill() means.
pub meant : Procs → (from to : ℕ) → ℤ → Bool
meant s from to (pos zero) = (s.proc from).pgrp == (s.proc to).pgrp
meant s from to (pos (suc k)) = suc k == to
meant s from to (negsuc zero) = not (ltb to init_pid)
meant s from to (negsuc (suc k)) = suc (suc k) == (s.proc to).pgrp

unfoldable pub sig_srch : Procs → (from to : ℕ) → ℤ → Bool
unfolding meant
sig_srch s from to pid = not ((s.proc to).state == nonexist) && meant s from to pid

unfoldable pub sig_perm : Procs → (from to : ℕ) → Bool
sig_perm s from to =
    let f = s.proc from in
    let t = s.proc to in
    not (
      not (f.euid == 0)
      && not (f.uid == t.uid)
      && not (f.uid == t.euid)
      && not (f.euid == t.uid)
      && not (f.euid == t.euid))

abbrev pub stops : ℕ → Bool
stops sig = (sig == sigstop) || (sig == sigtstp) || (sig == sigttin) || (sig == sigttou)

unfoldable pub del_pending : Signals → ℕ → ℕ → Signals
del_pending g p k = set_pending g p (del (g.pending p) k)

unfoldable pub del_stops : Signals → ℕ → Signals
unfolding del_pending
del_stops g p =
    del_pending (del_pending (del_pending (del_pending g p sigstop) p sigtstp) p sigttin) p sigttou

-- The `switch` of `sig_send`.
pub cancel : Procs → ℕ → ℕ → Procs
unfolding del_pending del_stops
cancel s p sig =
    if stops sig
    then with_signals s (del_pending s.signals p sigcont)
    else if sig == sigcont
    then (proc_wakeup (with_signals s (del_stops s.signals p)) p).0
    else s

abbrev pub is_ignore : Effect → Bool
is_ignore ignore = true
is_ignore e = false

abbrev pub wake_if : Bool → Procs → ℕ → Procs
wake_if b s p = if b then (proc_wakeup s p).0 else s

-- The rest of `sig_send`.
pub post : Procs → ℕ → ℕ → Procs
post s p sig =
    if is_ignore (sig_action s.signals p sig)
    then s
    else let t = with_signals s (set_pending s.signals p (add (s.signals.pending p) sig)) in
      wake_if (deliverable (t.signals.blocked p) (t.signals.pending p)) t p

unfoldable pub sig_send : Procs → ℕ → ℕ → Procs
unfolding cancel post
sig_send s p sig = post (cancel s p sig) p sig

abbrev pub is_ok : Errno → Bool
is_ok ok = true
is_ok e = false

-- One round of the loop of `do_kill`, for the process `to`.
pub kill_one : Procs → (from : ℕ) → ℤ → (sig to : ℕ) → Errno → Errno × Procs
kill_one s from pid sig to err =
    if not (sig_srch s from to pid)
    then (err, s)
    else if not (sig_perm s from to)
    then (if is_ok err then err else eperm, s)
    else (ok, sig_send s to sig)

-- From the process `to` on, n processes before the end.
pub kill_from : Procs → (from : ℕ) → ℤ → (sig to n : ℕ) → Errno → Errno × Procs
unfolding kill_one
kill_from s from pid sig to zero err = (err, s)
kill_from s from pid sig to (suc n) err =
    let (err', s') = kill_one s from pid sig to err in kill_from s' from pid sig (to + 1) n err'

unfoldable pub do_kill : Procs → ℤ → ℤ → Errno × Procs
unfolding kill_from
do_kill s pid (negsuc k) = (einval, s)
do_kill s pid (pos sig) =
    if ltb sig num_sigs then kill_from s (getpid s) pid sig 0 num_procs esrch else (einval, s)

-- With what is stored in `*oact`, if anything is.
unfoldable pub do_sigaction : Procs → ℤ → Option SigAction → Errno × Option SigAction × Procs
do_sigaction s (negsuc k) act = (einval, none, s)
do_sigaction s (pos sig) none =
    if ltb sig num_sigs then (ok, some (s.signals.action (getpid s) sig), s) else (einval, none, s)
do_sigaction s (pos sig) (some act) =
    let old = some (s.signals.action (getpid s) sig) in
    if ltb sig num_sigs
    then (if (sig == sigkill) || (sig == sigstop)
        then (einval, old, s)
        else (ok, old, with_signals s (set_action s.signals (getpid s) sig act)))
    else (einval, none, s)

unfoldable pub do_sigpending : Procs → SigSet
do_sigpending s k = s.signals.blocked (getpid s) k && s.signals.pending (getpid s) k

-- SIG_BLOCK, SIG_UNBLOCK and SIG_SETMASK; no result for another `how`.
pub masked : ℕ → SigSet → SigSet → Option SigSet
masked how old set =
    if how == 1
    then some (λ k. old k || set k)
    else if how == 2
    then some (λ k. old k && not (set k))
    else if how == 3
    then some set
    else none

pub set_mask : Procs → Option SigSet → Errno × SigSet × Procs
set_mask s none = (einval, s.signals.blocked (getpid s), s)
set_mask s (some b) = (
  ok,
  s.signals.blocked (getpid s),
  with_signals s (set_blocked s.signals (getpid s) (del (del b sigkill) sigstop)),
)

-- With what is stored in `*oset`.
unfoldable pub do_sigprocmask : Procs → ℕ → Option SigSet → Errno × SigSet × Procs
unfolding masked set_mask
do_sigprocmask s how none = (ok, s.signals.blocked (getpid s), s)
do_sigprocmask s how (some set) = set_mask s (masked how (s.signals.blocked (getpid s)) set)
