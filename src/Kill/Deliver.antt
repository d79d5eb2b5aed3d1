-- ===== src/Kill/Deliver.antt =====
-- That kill() leaves no process out.
use brainix_old.Base.{
  ℕ, zero, suc, ◌+◌, ◌≤◌, ◌<◌, ◌≡◌, refl, ◌∙◌, Bool, true, false, ◌==◌, ltb, arith, Bool-cases, inl,
  inr,
}
use brainix_old.Base.Int.{ℤ, pos, negsuc}
use brainix_old.Signal.Set.{num_sigs, sigcont}
use brainix_old.Signal.Table.{Signals, sig_action}
use brainix_old.Process.{Procs, num_procs, nonexist, proc_wakeup, proc_enq}
use brainix_old.Process.RoundRobin.{proc-proc_sched}
use brainix_old.Kill.{
  Errno, esrch, getpid, sig_srch, meant, sig_perm, sig_send, cancel, post, wake_if, with_signals,
  del_pending, del_stops, kill_one, kill_from, do_kill, stops,
}
use brainix_old.Kill.Pending.{
  ignored, sig_send_lem, cancels, signals-wake_if, signals-proc_wakeup, action-cancel,
}
use brainix_old.Kill.Search.{target}

-- What kill() reads of a process, and the actions, are the same in both states.
abbrev Alike : Procs → Procs → Type 0
Alike s t =
    ((j : ℕ)
      → (((t.proc j).state == nonexist) ≡ ((s.proc j).state == nonexist))
        × ((t.proc j).pgrp ≡ (s.proc j).pgrp)
        × ((t.proc j).uid ≡ (s.proc j).uid)
        × ((t.proc j).euid ≡ (s.proc j).euid))

Alike-trans : (s t u : Procs) → Alike s t → Alike t u → Alike s u
Alike-trans s t u a b j =
    ((b j).0 ∙ (a j).0, (b j).1 ∙ (a j).1, (b j).2 ∙ (a j).2, (b j).3 ∙ (a j).3)

Alike-proc_wakeup : (s : Procs) (p : ℕ) → Alike s (proc_wakeup s p).0
unfolding proc_wakeup proc_enq
Alike-proc_wakeup s p j = ground (arith, proc-proc_sched (proc_enq s p))

Alike-wake_if : (b : Bool) (s : Procs) (p : ℕ) → Alike s (wake_if b s p)
Alike-wake_if true s p = Alike-proc_wakeup s p
Alike-wake_if false s p = λ j. (refl, refl, refl, refl)

Alike-cancel : (s : Procs) (p sig : ℕ) → Alike s (cancel s p sig)
unfolding cancel
Alike-cancel s p sig j =
    ground (arith, Alike-proc_wakeup (with_signals s (del_stops s.signals p)) p j)

Alike-post : (s : Procs) (p sig : ℕ) → Alike s (post s p sig)
unfolding post
Alike-post s p sig = elim (Bool-cases (ignored s p sig)) [
  | inl e ↦ rw e (λ j. (refl, refl, refl, refl))
  | inr e ↦ rw e (λ j. Alike-wake_if _ (with_signals s _) p j)
]

Alike-sig_send : (s : Procs) (p sig : ℕ) → Alike s (sig_send s p sig)
unfolding sig_send
Alike-sig_send s p sig =
    Alike-trans s (cancel s p sig) (post (cancel s p sig) p sig) (Alike-cancel s p sig)
      (Alike-post (cancel s p sig) p sig)

sig_perm-same : (s t : Procs) (from j : ℕ) → Alike s t → sig_perm t from j ≡ sig_perm s from j
unfolding sig_perm
sig_perm-same s t from j a = rw ((a from).2, (a from).3, (a j).2, (a j).3) refl

sig_srch-same :
    (s t : Procs) (from j : ℕ) (pid : ℤ) → Alike s t → sig_srch t from j pid ≡ sig_srch s from j pid
unfolding sig_srch meant
sig_srch-same s t from j (pos zero) a = rw ((a j).0, (a from).1, (a j).1) refl
sig_srch-same s t from j (pos (suc k)) a = rw ((a j).0) refl
sig_srch-same s t from j (negsuc zero) a = rw ((a j).0) refl
sig_srch-same s t from j (negsuc (suc k)) a = rw ((a j).0, (a j).1) refl

action-post : (s : Procs) (p sig : ℕ) → (post s p sig).signals.action ≡ s.signals.action
unfolding post
action-post s p sig = elim (Bool-cases (ignored s p sig)) [
  | inl e ↦ rw e refl
  | inr e ↦ rw (e, signals-wake_if _ (with_signals s _) p) refl
]

pub action-sig_send : (s : Procs) (p sig : ℕ) → (sig_send s p sig).signals.action ≡ s.signals.action
unfolding sig_send
action-sig_send s p sig = action-post (cancel s p sig) p sig ∙ action-cancel s p sig

del_pending-other :
    (g : Signals) (q j p : ℕ) → (p == q) ≡ false → (del_pending g q j).pending p ≡ g.pending p
unfolding del_pending
del_pending-other g q j p ne = rw ne refl

del_stops-other :
    (g : Signals) (q p : ℕ) → (p == q) ≡ false → (del_stops g q).pending p ≡ g.pending p
unfolding del_stops del_pending
del_stops-other g q p ne = rw ne refl

cancel-other :
    (s : Procs) (q sig p : ℕ)
    → (p == q) ≡ false
    → (cancel s q sig).signals.pending p ≡ s.signals.pending p
unfolding cancel
cancel-other s q sig p ne = elim (Bool-cases (stops sig)) [
  | inl a ↦ rw a (del_pending-other s.signals q _ p ne)
  | inr a ↦ elim (Bool-cases (sig == sigcont)) [
    | inl b ↦
        rw (a, b, signals-proc_wakeup (with_signals s (del_stops s.signals q)) q)
          (del_stops-other s.signals q p ne)
    | inr b ↦ rw (a, b) refl
  ]
]

post-other :
    (s : Procs) (q sig p : ℕ)
    → (p == q) ≡ false
    → (post s q sig).signals.pending p ≡ s.signals.pending p
unfolding post
post-other s q sig p ne = elim (Bool-cases (ignored s q sig)) [
  | inl e ↦ rw e refl
  | inr e ↦ rw (e, signals-wake_if _ (with_signals s _) q, ne) refl
]

pub sig_send-other :
    (s : Procs) (q sig p : ℕ)
    → (p == q) ≡ false
    → (sig_send s q sig).signals.pending p ≡ s.signals.pending p
unfolding sig_send
sig_send-other s q sig p ne = post-other (cancel s q sig) q sig p ne ∙ cancel-other s q sig p ne

not_self_cancel : (sig : ℕ) → cancels sig sig ≡ false
not_self_cancel sig = ground arith

-- A signal that is pending stays so while it is sent to others.
sig_send-kept :
    (s : Procs) (q sig p : ℕ)
    → sig < num_sigs
    → s.signals.pending p sig ≡ true
    → (sig_send s q sig).signals.pending p sig ≡ true
sig_send-kept s q sig p lt e = elim (Bool-cases (p == q)) [
  | inl i ↦
      let i' : q ≡ p = ground arith in
      rw (i', sig_send_lem s p sig sig lt, e, not_self_cancel sig) refl
  | inr i ↦ rw (sig_send-other s q sig p i) e
]

sig_send-sent :
    (s : Procs) (p sig : ℕ)
    → sig < num_sigs
    → ignored s p sig ≡ false
    → (sig_send s p sig).signals.pending p sig ≡ true
sig_send-sent s p sig lt e = rw (sig_send_lem s p sig sig lt, e) (ground arith)

kill_one-kept :
    (s : Procs) (from : ℕ) (pid : ℤ) (sig to : ℕ) (err : Errno) (p : ℕ)
    → sig < num_sigs
    → s.signals.pending p sig ≡ true
    → (kill_one s from pid sig to err).1.signals.pending p sig ≡ true
unfolding kill_one
kill_one-kept s from pid sig to err p lt e = ground (arith, sig_send-kept s to sig p)

kill_from-kept :
    (s : Procs) (from : ℕ) (pid : ℤ) (sig k n : ℕ) (err : Errno) (p : ℕ)
    → sig < num_sigs
    → s.signals.pending p sig ≡ true
    → (kill_from s from pid sig k n err).1.signals.pending p sig ≡ true
unfolding kill_from
kill_from-kept s from pid sig k zero err p lt e = e
kill_from-kept s from pid sig k (suc n) err p lt e =
    kill_from-kept (kill_one s from pid sig k err).1 from pid sig (k + 1) n
      (kill_one s from pid sig k err).0 p lt (kill_one-kept s from pid sig k err p lt e)

kill_one-same :
    (s : Procs) (from : ℕ) (pid : ℤ) (sig to : ℕ) (err : Errno)
    → Alike s (kill_one s from pid sig to err).1
      × ((kill_one s from pid sig to err).1.signals.action ≡ s.signals.action)
unfolding kill_one
kill_one-same s from pid sig to err = elim (Bool-cases (sig_srch s from to pid)) [
  | inl a ↦ elim (Bool-cases (sig_perm s from to)) [
    | inl b ↦ rw (a, b) (Alike-sig_send s to sig, action-sig_send s to sig)
    | inr b ↦ rw (a, b) (λ j. (refl, refl, refl, refl), refl)
  ]
  | inr a ↦ rw a (λ j. (refl, refl, refl, refl), refl)
]

kill_one-sent :
    (s : Procs) (from : ℕ) (pid : ℤ) (sig p : ℕ) (err : Errno)
    → target s from pid p ≡ true
    → (kill_one s from pid sig p err).1 ≡ sig_send s p sig
unfolding kill_one
kill_one-sent s from pid sig p err h =
    let a : sig_srch s from p pid ≡ true = ground arith in
    let b : sig_perm s from p ≡ true = ground arith in rw (a, b) refl

pub ignored-same :
    (s t : Procs) (p sig : ℕ)
    → t.signals.action ≡ s.signals.action
    → ignored t p sig ≡ ignored s p sig
unfolding sig_action
ignored-same s t p sig e = rw e refl

kill_from-sent :
    (s : Procs) (from : ℕ) (pid : ℤ) (sig k n : ℕ) (err : Errno) (p : ℕ)
    → sig < num_sigs
    → k ≤ p
    → p < k + n
    → target s from pid p ≡ true
    → ignored s p sig ≡ false
    → (kill_from s from pid sig k n err).1.signals.pending p sig ≡ true
unfolding kill_from
kill_from-sent s from pid sig k zero err p lt lo hi h i = absurd (omega arith)
kill_from-sent s from pid sig k (suc n) err p lt lo hi h i =
    let r = kill_one s from pid sig k err in
    elim (Bool-cases (p == k)) [
      | inl e ↦
          let e' : k ≡ p = ground arith in
          let hk : target s from pid k ≡ true = rw e' h in
          let sent = sig_send-sent s p sig lt i in
          let now : r.1.signals.pending p sig ≡ true =
            rw (kill_one-sent s from pid sig k err hk, e') sent in
          kill_from-kept r.1 from pid sig (k + 1) n r.0 p lt now
      | inr e ↦
          let same = kill_one-same s from pid sig k err in
          let h' : target r.1 from pid p ≡ true =
            rw (sig_srch-same s r.1 from p pid same.0, sig_perm-same s r.1 from p same.0) h in
          kill_from-sent r.1 from pid sig (k + 1) n r.0 p lt (ground arith) (omega arith) h'
            (ignored-same s r.1 p sig same.1 ∙ i)
    ]

-- kill() with the number of a signal leaves no process out: after `do_kill` the signal is pending
-- for every process that is meant, that the caller may signal, and that does not ignore it.
pub do_kill_delivers :
    (s : Procs) (pid : ℤ) (sig p : ℕ)
    → sig < num_sigs
    → p < num_procs
    → target s (getpid s) pid p ≡ true
    → ignored s p sig ≡ false
    → (do_kill s pid (pos sig)).1.signals.pending p sig ≡ true
unfolding do_kill
do_kill_delivers s pid sig p lt hp h i =
    let known : ltb sig num_sigs ≡ true = ground arith in
    rw known
      (kill_from-sent s (getpid s) pid sig 0 num_procs esrch p lt (omega arith) (omega arith) h i)
