-- ===== src/Kill/Pending.antt =====
-- What sending a signal does to the signals that are pending.
use brainix_old.Base.{
  ℕ, ◌<◌, ◌≡◌, refl, Bool, true, false, ◌&&◌, ◌||◌, not, arith, ◌==◌, ltb, Bool-cases, inl, inr,
}
use brainix_old.Signal.Set.{
  SigSet, num_sigs, add, del, sigaddset, sigdelset, deliverable, sigstop, sigtstp, sigttin, sigttou,
  sigcont,
}
use brainix_old.Signal.Table.{Signals, sig_action, set_pending}
use brainix_old.Process.{Procs, proc_wakeup, proc_enq, proc_sched, switch_to}
use brainix_old.Kill.{
  del_pending, del_stops, stops, sig_send, cancel, post, is_ignore, with_signals, wake_if,
}

-- The signals that a signal cancels: stopping cancels continuing, and the other way round.
abbrev pub cancels : ℕ → ℕ → Bool
cancels sig k = (stops sig && (k == sigcont)) || ((sig == sigcont) && stops k)

pub signals-proc_sched : (s : Procs) → (proc_sched s).0.signals ≡ s.signals
unfolding proc_sched switch_to
signals-proc_sched s = ground arith

pub signals-proc_wakeup : (s : Procs) (p : ℕ) → (proc_wakeup s p).0.signals ≡ s.signals
unfolding proc_wakeup proc_enq
signals-proc_wakeup s p = ground (arith, signals-proc_sched (proc_enq s p))

pub signals-wake_if : (b : Bool) (s : Procs) (p : ℕ) → (wake_if b s p).signals ≡ s.signals
signals-wake_if true s p = signals-proc_wakeup s p
signals-wake_if false s p = refl

del_lem : (b : SigSet) (j k : ℕ) → ltb j num_sigs ≡ true → del b j k ≡ (b k && not (k == j))
unfolding sigdelset
del_lem b j k h = ground arith

add_lem : (b : SigSet) (j k : ℕ) → ltb j num_sigs ≡ true → add b j k ≡ (b k || (k == j))
unfolding sigaddset
add_lem b j k h = ground arith

pending-del_pending :
    (g : Signals) (p j k : ℕ)
    → ltb j num_sigs ≡ true
    → (del_pending g p j).pending p k ≡ (g.pending p k && not (k == j))
unfolding del_pending
pending-del_pending g p j k h = ground (arith, del_lem (g.pending p) j k h)

pending-del_stops :
    (g : Signals) (p k : ℕ) → (del_stops g p).pending p k ≡ (g.pending p k && not (stops k))
unfolding del_stops
pending-del_stops g p k =
    let g1 = del_pending g p sigstop in
    let g2 = del_pending g1 p sigtstp in
    let g3 = del_pending g2 p sigttin in
    let e1 = pending-del_pending g p sigstop k refl in
    let e2 = pending-del_pending g1 p sigtstp k refl in
    let e3 = pending-del_pending g2 p sigttin k refl in
    let e4 = pending-del_pending g3 p sigttou k refl in
    rw (e4, e3, e2, e1)
      (bits (g.pending p k) (k == sigstop) (k == sigtstp) (k == sigttin) (k == sigttou))
  where
    bits :
        (x a b c d : Bool)
        → ((((x && not a) && not b) && not c) && not d) ≡ (x && not (a || b || c || d))
    bits x true b c d = ground arith
    bits x false true c d = ground arith
    bits x false false true d = ground arith
    bits x false false false d = ground arith

cancel_lem :
    (s : Procs) (p sig k : ℕ)
    → (cancel s p sig).signals.pending p k ≡ (s.signals.pending p k && not (cancels sig k))
unfolding cancel
cancel_lem s p sig k = elim (Bool-cases (stops sig)) [
  | inl a ↦
      let c : (sig == sigcont) ≡ false = ground arith in
      rw (a, c, pending-del_pending s.signals p sigcont k refl) (ground arith)
  | inr a ↦ elim (Bool-cases (sig == sigcont)) [
    | inl b ↦
        rw (a, b, signals-proc_wakeup (with_signals s (del_stops s.signals p)) p)
          (pending-del_stops s.signals p k)
    | inr b ↦ rw (a, b) (ground arith)
  ]
]

pub action-cancel : (s : Procs) (p sig : ℕ) → (cancel s p sig).signals.action ≡ s.signals.action
unfolding cancel del_pending del_stops
action-cancel s p sig =
    ground (arith, signals-proc_wakeup (with_signals s (del_stops s.signals p)) p)

-- Whether the signal is ignored.
abbrev pub ignored : Procs → ℕ → ℕ → Bool
ignored s p sig = is_ignore (sig_action s.signals p sig)

post_lem :
    (s : Procs) (p sig k : ℕ)
    → sig < num_sigs
    → (post s p sig).signals.pending p k
      ≡ (s.signals.pending p k || (not (ignored s p sig) && (k == sig)))
unfolding post
post_lem s p sig k h = elim (Bool-cases (ignored s p sig)) [
  | inl a ↦ rw a (ground arith)
  | inr a ↦
      let t = with_signals s (set_pending s.signals p (add (s.signals.pending p) sig)) in
      rw (a, signals-wake_if (deliverable (t.signals.blocked p) (t.signals.pending p)) t p)
        (ground (arith, add_lem (s.signals.pending p) sig k (ground arith)))
]

ignored-cancel : (s : Procs) (p sig : ℕ) → ignored (cancel s p sig) p sig ≡ ignored s p sig
unfolding sig_action
ignored-cancel s p sig = rw (action-cancel s p sig) refl

-- After a signal has been sent to a process, the signals that it cancels are no longer pending:
-- SIGCONT for the four that stop a process, and those four for SIGCONT. The signal itself is
-- pending, unless the process ignores it; every other signal is pending if it was.
pub sig_send_lem :
    (s : Procs) (p sig k : ℕ)
    → sig < num_sigs
    → (sig_send s p sig).signals.pending p k
      ≡ ((s.signals.pending p k && not (cancels sig k)) || (not (ignored s p sig) && (k == sig)))
unfolding sig_send
sig_send_lem s p sig k h =
    rw (post_lem (cancel s p sig) p sig k h, cancel_lem s p sig k, ignored-cancel s p sig) refl
