-- ===== src/Signal/Table.antt =====
-- The per-process signal tables of src/kernel/signal.c, and what a signal does to a process.
use brainix_old.Base.{ℕ, ltb, ◌==◌, if◌then◌else◌, update, ◌||◌}
use brainix_old.Signal.Set.{
  SigSet, num_sigs, sigemptyset, sigchld, sigurg, sigstop, sigtstp, sigttin, sigttou, sigcont,
}

-- `struct sigaction`, with a handler as the number that the pointer is.
pub record SigAction : Type 0 where
  pub sa_handler : ℕ
  pub sa_mask : SigSet
  pub sa_flags : ℕ
  pub sa_sigaction : ℕ

abbrev pub sig_dfl : ℕ
sig_dfl = 1

abbrev pub sig_ign : ℕ
sig_ign = 4

-- `blocked[]`, `pending[]` and `action[][]`.
pub record Signals : Type 0 where
  pub blocked : ℕ → SigSet
  pub pending : ℕ → SigSet
  pub action : ℕ → ℕ → SigAction

abbrev pub set_blocked : Signals → ℕ → SigSet → Signals
set_blocked s p b = record s { blocked = update s.blocked p b }

abbrev pub set_pending : Signals → ℕ → SigSet → Signals
set_pending s p b = record s { pending = update s.pending p b }

abbrev pub set_action : Signals → ℕ → ℕ → SigAction → Signals
set_action s p k a = record s { action = update s.action p (update (s.action p) k a) }

init_actions : (ℕ → SigAction) → ℕ → SigAction
init_actions old k =
    if ltb k num_sigs
    then record (old k) { sa_handler = sig_dfl; sa_mask = sigemptyset; sa_flags = 0 }
    else old k

unfoldable pub sig_init : Signals → ℕ → Signals
unfolding init_actions
sig_init s p = record {
  blocked = update s.blocked p sigemptyset;
  pending = update s.pending p sigemptyset;
  action = update s.action p (init_actions (s.action p));
}

-- TERM, IGN, STOP, CONT, CATCH.
pub data Effect : Type 0 where
  terminate ignore stop continue catch : Effect

unfoldable pub sig_action : Signals → ℕ → ℕ → Effect
sig_action s p signo =
    let handler = (s.action p signo).sa_handler in
    if handler == sig_dfl
    then (if (signo == sigchld) || (signo == sigurg)
        then ignore
        else if (signo == sigstop) || (signo == sigtstp) || (signo == sigttin) || (signo == sigttou)
        then stop
        else if signo == sigcont
        then continue
        else terminate)
    else if handler == sig_ign
    then ignore
    else catch
