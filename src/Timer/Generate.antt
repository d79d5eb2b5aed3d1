-- ===== src/Timer/Generate.antt =====
-- The SIGALRMs of a tick: the second loop of timer_handler in src/kernel/timer.c.
use brainix_old.Base.{
  ℕ, ◌+◌, ◌≡◌, refl, ◌∙◌, Bool, true, false, ◌&&◌, ◌||◌, not, Option, none, some, List, [], ◌∷◌,
  leb, ◌==◌, if◌then◌else◌, arith, Bool-cases, inl, inr,
}
use brainix_old.Process.{Procs}
use brainix_old.Kill.{sig_send}
use brainix_old.Kill.Pending.{ignored, sig_send_lem}
use brainix_old.Kill.Deliver.{action-sig_send, sig_send-other, ignored-same}
use brainix_old.Timer.{Sigalrm, sigalrm, generate}
use brainix_old.Timer.Sorted.{From, From-mono}
use brainix_old.Timer.Set.{alarm_of, IsScheduled, at, owner}

-- Whether a time has come.
abbrev pub has_come : (now : ℕ) → Option ℕ → Bool
has_come now none = false
has_come now (some time) = leb time now

-- What the loop over the SIGALRMs does.
pub record Generated (now : ℕ) (xs : List Sigalrm) (s : Procs) (ys : List Sigalrm) (s' : Procs)
    : Type 0 where
  pub set : IsScheduled ys
  pub left :
      (p : ℕ) → alarm_of p ys ≡ (if has_come now (alarm_of p xs) then none else alarm_of p xs)
  pub action : s'.signals.action ≡ s.signals.action
  pub sent :
      (p : ℕ)
      → s'.signals.pending p sigalrm ≡ (
          s.signals.pending p sigalrm
          || (has_come now (alarm_of p xs) && not (ignored s p sigalrm)))

not_come :
    (now : ℕ) (p : ℕ) (xs : List Sigalrm)
    → From at owner (now + 1) xs
    → has_come now (alarm_of p xs) ≡ false
not_come now p [] f = refl
not_come now p (x ∷ xs) f = ground (arith, not_come now p xs)

sig_send-sigalrm :
    (s : Procs) (q p : ℕ)
    → (sig_send s q sigalrm).signals.pending p sigalrm
      ≡ (s.signals.pending p sigalrm || ((q == p) && not (ignored s p sigalrm)))
sig_send-sigalrm s q p = elim (Bool-cases (q == p)) [
  | inl b ↦
      let same : q ≡ p = ground arith in
      rw (same, sig_send_lem s p sigalrm sigalrm (omega arith)) (ground arith)
  | inr b ↦ rw (sig_send-other s q sigalrm p (ground arith), b) (ground arith)
]

bits : (a b : Bool) → ((a || b) || false) ≡ (a || b)
bits a b = ground arith

bits' : (a b : Bool) → ((a || false) || b) ≡ (a || b)
bits' a b = ground arith

pub generate-Generated :
    (now : ℕ) (xs : List Sigalrm) (s : Procs)
    → IsScheduled xs
    → let r = generate now xs s in Generated now xs s r.0 r.1
unfolding generate
generate-Generated now [] s v = record {
  set = v;
  left = λ p. refl;
  action = refl;
  sent = λ p. ground arith;
}
generate-Generated now (x ∷ xs) s v = elim (Bool-cases (leb x.uptime now)) [
  | inl b ↦
      let t = sig_send s x.pid sigalrm in
      let rest =
        generate-Generated now xs t (record { ascending = v.ascending.1; single = v.single.1 }) in
      rw b (record {
        set = rest.set;
        left = λ p. rest.left p ∙ left_cons p b;
        action = rest.action ∙ action-sig_send s x.pid sigalrm;
        sent = λ p. rest.sent p ∙ sent_cons p b;
      })
  | inr b ↦
      let none_due = λ (p : ℕ).
        not_come now p (x ∷ xs)
          (ground arith, From-mono at owner (now + 1) x.uptime xs (ground arith) v.ascending.0) in
      rw b (record {
        set = v;
        left = λ p. ground (arith, none_due p);
        action = refl;
        sent = λ p. ground (arith, none_due p);
      })
]
  where
    gone : (p : ℕ) → (x.pid == p) ≡ true → alarm_of p xs ≡ none
    gone p c = let same : p ≡ x.pid = ground arith in rw same v.single.0

    left_cons :
        (p : ℕ)
        → leb x.uptime now ≡ true
        → (if has_come now (alarm_of p xs) then none else alarm_of p xs)
          ≡ (if has_come now (alarm_of p (x ∷ xs)) then none else alarm_of p (x ∷ xs))
    left_cons p b = elim (Bool-cases (x.pid == p)) [
      | inl c ↦ rw (c, gone p c, b) refl
      | inr c ↦ ground arith
    ]

    sent_cons :
        (p : ℕ)
        → leb x.uptime now ≡ true
        → ((sig_send s x.pid sigalrm).signals.pending p sigalrm
            || (has_come now (alarm_of p xs) && not (ignored (sig_send s x.pid sigalrm) p sigalrm)))
          ≡ (s.signals.pending p sigalrm
              || (has_come now (alarm_of p (x ∷ xs)) && not (ignored s p sigalrm)))
    sent_cons p b =
        rw
          (
            sig_send-sigalrm s x.pid p,
            ignored-same s (sig_send s x.pid sigalrm) p sigalrm (action-sig_send s x.pid sigalrm),
          )
          (elim (Bool-cases (x.pid == p)) [
            | inl c ↦
                rw (c, gone p c, b) (bits (s.signals.pending p sigalrm) (not (ignored s p sigalrm)))
            | inr c ↦ rw c (bits' (s.signals.pending p sigalrm) _)
          ])
