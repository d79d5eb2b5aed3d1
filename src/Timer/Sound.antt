-- ===== src/Timer/Sound.antt =====
-- The alarms of a tick: the first loop of timer_handler in src/kernel/timer.c.
use brainix_old.Base.{
  ℕ, ◌+◌, ◌≡◌, refl, sym, Option, none, some, List, [], ◌∷◌, leb, ◌==◌, if◌then◌else◌, arith,
  Bool-cases, inl, inr,
}
use brainix_old.Signal.Table.{Signals}
use brainix_old.Process.{nonexist, proc_wakeup}
use brainix_old.Domino.{Rallies, rally_grow}
use brainix_old.Message.{Mail, msg_reply, msg_send, put_in}
use brainix_old.Message.Send.{swapped}
use brainix_old.Kill.Pending.{signals-proc_wakeup}
use brainix_old.Timer.{Alarm, sound}
use brainix_old.Timer.Sorted.{From, From-mono, Ascending}

-- What is left on a list, and what is not.
module _ {E : Type 0} (time : E → ℕ) (now : ℕ) where
  abbrev pub later : List E → List E
  later [] = []
  later (x ∷ xs) = if leb (time x) now then later xs else x ∷ later xs

  abbrev pub soon : List E → List E
  soon [] = []
  soon (x ∷ xs) = if leb (time x) now then x ∷ soon xs else soon xs

later_all :
    {E : Type 0} (time key : E → ℕ) (now : ℕ) (xs : List E)
    → From time key (now + 1) xs
    → (later time now xs ≡ xs) × (soon time now xs ≡ [])
later_all time key now [] f = (refl, refl)
later_all time key now (x ∷ xs) f = ground (arith, later_all time key now xs)

abbrev pub ring_at : Alarm → ℕ
ring_at a = a.uptime

abbrev pub letter : Alarm → ℕ
letter a = a.msg

abbrev pub with_rest : List Alarm → Option Mail → Option (List Alarm × Mail)
with_rest xs none = none
with_rest xs (some s) = some (xs, s)

abbrev pub SameSignals : Signals → Option Mail → Type 0
SameSignals g none = Unit {0}
SameSignals g (some s') = s'.procs.signals ≡ g

module _ (fuel : ℕ) (d d' : ℕ → ℕ) where
  -- Replying to one message after the other.
  abbrev pub replies : List Alarm → Mail → Option Mail
  replies [] s = some s
  replies (x ∷ xs) s = elim (msg_reply fuel s x.msg (d x.msg) (d' x.msg)) [
    | none ↦ none
    | some s' ↦ replies xs s'
  ]

  on_reply :
      (now : ℕ) (xs : List Alarm) (r : Option Mail)
      → ((s : Mail)
          → sound fuel d d' now xs s
            ≡ with_rest (later ring_at now xs) (replies (soon ring_at now xs) s))
      → (elim r [ none ↦ none | some s' ↦ sound fuel d d' now xs s' ])
        ≡ with_rest
            (later ring_at now xs)
            (elim r [ none ↦ none | some s' ↦ replies (soon ring_at now xs) s' ])
  on_reply now xs none f = refl
  on_reply now xs (some s') f = f s'

  pub sound_lem :
      (now : ℕ) (xs : List Alarm) (s : Mail)
      → Ascending ring_at letter xs
      → sound fuel d d' now xs s
        ≡ with_rest (later ring_at now xs) (replies (soon ring_at now xs) s)
  unfolding sound
  sound_lem now [] s a = refl
  sound_lem now (x ∷ xs) s a = elim (Bool-cases (leb x.uptime now)) [
    | inl b ↦ rw b (
        on_reply now xs (msg_reply fuel s x.msg (d x.msg) (d' x.msg))
          (λ s'. sound_lem now xs s' a.1))
    | inr b ↦
        let all =
          later_all ring_at letter now xs
            (From-mono ring_at letter (now + 1) x.uptime xs (ground arith) a.0) in
        rw (b, all.0, all.1) refl
  ]

  msg_send-SameSignals :
      (s : Mail) (m e e' : ℕ) → SameSignals s.procs.signals (msg_send fuel s m e e')
  unfolding msg_send
  msg_send-SameSignals s m e e' =
      elim (Bool-cases ((s.procs.proc (s.msg m).to).state == nonexist)) [
        | inl b ↦ rw b tt
        | inr b ↦
            rw b (grown (rally_grow fuel s.rallies (s.msg m).mid (s.msg m).from (s.msg m).to e e'))
      ]
    where
      grown :
          (r : Option Rallies)
          → SameSignals s.procs.signals (elim r [
            | none ↦ none
            | some r ↦
                some (record (put_in s m) {
                  rallies = r;
                  procs = (proc_wakeup s.procs (s.msg m).to).0;
                })
          ])
      grown none = tt
      grown (some r) = signals-proc_wakeup s.procs (s.msg m).to

  msg_reply-SameSignals :
      (s : Mail) (m e e' : ℕ) → SameSignals s.procs.signals (msg_reply fuel s m e e')
  unfolding msg_reply
  msg_reply-SameSignals s m e e' = msg_send-SameSignals (swapped s m) m e e'

  next-SameSignals :
      (g : Signals) (xs : List Alarm) (r : Option Mail)
      → SameSignals g r
      → ((s : Mail) → s.procs.signals ≡ g → SameSignals g (replies xs s))
      → SameSignals g (elim r [ none ↦ none | some s' ↦ replies xs s' ])
  next-SameSignals g xs none h f = tt
  next-SameSignals g xs (some s) h f = f s h

  pub replies-SameSignals :
      (g : Signals) (xs : List Alarm) (s : Mail)
      → s.procs.signals ≡ g
      → SameSignals g (replies xs s)
  replies-SameSignals g [] s h = h
  replies-SameSignals g (x ∷ xs) s h =
      let one : SameSignals g (msg_reply fuel s x.msg (d x.msg) (d' x.msg)) =
        rw (sym h) (msg_reply-SameSignals s x.msg (d x.msg) (d' x.msg)) in
      next-SameSignals g xs (msg_reply fuel s x.msg (d x.msg) (d' x.msg)) one
        (λ s' e. replies-SameSignals g xs s' e)
