-- ===== src/Timer/Handler.antt =====
-- A tick of the timer: timer_handler of src/kernel/timer.c.
use brainix_old.Base.{
  ℕ, ◌+◌, ◌%◌, ◌^◌, ◌≡◌, refl, ap, ◌∙◌, ◌&&◌, ◌||◌, not, Option, none, some, arith, if◌then◌else◌,
}
use brainix_old.Process.{proc_update}
use brainix_old.Message.{Mail}
use brainix_old.Kill.Pending.{ignored, signals-proc_sched}
use brainix_old.Kill.Deliver.{ignored-same}
use brainix_old.Timer.{Timer, sigalrm, tick, generate, handle_sounded, timer_handler, with_procs}
use brainix_old.Timer.Sorted.{Ascending}
use brainix_old.Timer.Set.{alarm_of, IsScheduled}
use brainix_old.Timer.Generate.{has_come, generate-Generated}
use brainix_old.Timer.Sound.{
  later, soon, ring_at, letter, replies, with_rest, sound_lem, SameSignals, replies-SameSignals,
}

module _ (fuel : ℕ) (d d' : ℕ → ℕ) (t : Timer) where
  abbrev pub now : ℕ
  now = (t.uptime + 1) % 2 ^ 32

  -- The mailboxes after the replies to all messages whose alarm is due, in the order of the times.
  abbrev pub sounded : Option Mail
  sounded = replies fuel d d' (soon ring_at now t.next_alarm) (tick t).mail

  -- After a tick that ends in the given state, or in a panic.
  pub record Ticked (t' : Timer) (s : Mail) : Type 0 where
    pub uptime : t'.uptime ≡ now
    pub alarms : t'.next_alarm ≡ later ring_at now t.next_alarm
    pub mail : t'.mail ≡ with_procs s t'.mail.procs
    pub set : IsScheduled t'.next_sigalrm
    pub left :
        (p : ℕ)
        → alarm_of p t'.next_sigalrm
          ≡ (if has_come now (alarm_of p t.next_sigalrm) then none else alarm_of p t.next_sigalrm)
    pub sent :
        (p : ℕ)
        → t'.mail.procs.signals.pending p sigalrm ≡ (
            t.mail.procs.signals.pending p sigalrm
            || (has_come now (alarm_of p t.next_sigalrm) && not (ignored t.mail.procs p sigalrm)))

  pub Outcome : Option Timer → Option Mail → Type 0
  Outcome none none = Unit {0}
  Outcome none (some s) = ⊥
  Outcome (some t') none = ⊥
  Outcome (some t') (some s) = Ticked t' s

  handle_sounded-Outcome :
      (r : Option Mail)
      → IsScheduled t.next_sigalrm
      → SameSignals t.mail.procs.signals r
      → Outcome (handle_sounded (tick t) (with_rest (later ring_at now t.next_alarm) r)) r
  unfolding Outcome handle_sounded tick
  handle_sounded-Outcome none v e = tt
  handle_sounded-Outcome (some s) v e =
      let g = generate-Generated now t.next_sigalrm s.procs v in
      let same : (p : ℕ)
          → ((s.procs.signals.pending p sigalrm
                || (has_come now (alarm_of p t.next_sigalrm) && not (ignored s.procs p sigalrm)))
              ≡ (t.mail.procs.signals.pending p sigalrm
                  || (has_come now (alarm_of p t.next_sigalrm)
                      && not (ignored t.mail.procs p sigalrm)))) =
        λ p. rw (ignored-same t.mail.procs s.procs p sigalrm (ap (λ g. g.action) e), e) refl in
      let swt = signals-proc_sched (generate now t.next_sigalrm s.procs).1 in
      record {
        uptime = refl;
        alarms = refl;
        mail = refl;
        set = g.set;
        left = g.left;
        sent = λ p. rw swt (g.sent p ∙ same p);
      }

  signals-tick : (tick t).mail.procs.signals ≡ t.mail.procs.signals
  unfolding tick proc_update
  signals-tick = ground arith

  -- A tick in which both lists are sorted and no process has two SIGALRMs: the alarms that are due
  -- are taken off their list, and their messages sent back in the order of the list; the tick fails
  -- only if one of these replies does. The SIGALRMs that are due are taken off the other list,
  -- which stays sorted, and exactly their processes have SIGALRM pending now, in addition to those
  -- that had it and without those that ignore it.
  pub timer_handler_lem :
      Ascending ring_at letter t.next_alarm
      → IsScheduled t.next_sigalrm
      → Outcome (timer_handler fuel d d' t) sounded
  unfolding timer_handler tick
  timer_handler_lem a v =
      let s = (tick t).mail in
      rw (sound_lem fuel d d' now t.next_alarm s a) (
        handle_sounded-Outcome sounded v (
          replies-SameSignals fuel d d' t.mail.procs.signals (soon ring_at now t.next_alarm) s
            signals-tick))
