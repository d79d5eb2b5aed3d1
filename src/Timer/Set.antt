-- ===== src/Timer/Set.antt =====
-- Setting and cancelling a SIGALRM: timer_sigalrm of src/kernel/timer.c.
use brainix_old.Base.{
  ℕ, ◌+◌, ◌-◌, ◌*◌, ◌/◌, ◌%◌, ◌^◌, ◌<◌, ◌≤◌, ◌≡◌, refl, ◌∙◌, Bool, true, false, Option, none, some,
  List, ltb, ◌==◌, if◌then◌else◌, arith, Bool-cases, inl, inr,
}
use brainix_old.Timer.{Timer, Sigalrm, timer_sigalrm, take_first, insert, seconds_left, hz}
use brainix_old.Timer.Sorted.{
  due, IsTimed, others, others-IsTimed, due-others_self, due-others_other, insert-IsTimed,
  due-insert, Taken, take_first-Taken,
}

abbrev pub at : Sigalrm → ℕ
at x = x.uptime

abbrev pub owner : Sigalrm → ℕ
owner x = x.pid

-- When the SIGALRM of a process is due.
abbrev pub alarm_of : ℕ → List Sigalrm → Option ℕ
alarm_of p xs = due at owner p xs

-- The list is sorted by time, and no process has two SIGALRMs.
abbrev pub IsScheduled : List Sigalrm → Type 0
IsScheduled xs = IsTimed at owner xs

-- The seconds that are reported, `r`: those that are left, rounded up.
pub Rounded : (now : ℕ) → Option ℕ → ℕ → Type 0
Rounded now none r = r ≡ 0
Rounded now (some time) r =
    let left = (time + 2 ^ 32 - now) % 2 ^ 32 in (left ≤ r * hz) × (r * hz < left + hz)

round_up :
    (left : ℕ)
    → left < 2 ^ 32
    → let r = (left / hz + (if ltb 0 (left % hz) then 1 else 0)) % 2 ^ 32 in
      (left ≤ r * hz) × (r * hz < left + hz)
round_up left h = elim (Bool-cases (ltb 0 (left % hz))) [
  | inl b ↦ rw b (ground arith)
  | inr b ↦ rw b (ground arith)
]

seconds_left-Rounded :
    (now p : ℕ) (xs : List Sigalrm) (old : Option Sigalrm)
    → Taken at owner p xs old
    → Rounded now (alarm_of p xs) (seconds_left now old)
unfolding Rounded seconds_left
seconds_left-Rounded now p xs none k = rw k refl
seconds_left-Rounded now p xs (some x) k =
    rw (k.1) (round_up ((x.uptime + 2 ^ 32 - now) % 2 ^ 32) (omega arith))

-- What setting the SIGALRM of a process leaves.
module _ (xs : List Sigalrm) (from : ℕ) (v : IsScheduled xs) where
  abbrev set_at : (cancel : Bool) → ℕ → List Sigalrm
  set_at cancel time =
      let ys = others at owner from xs in
      if cancel then ys else insert at (record { uptime = time; pid = from }) ys

  set_at-IsScheduled : (cancel : Bool) (time : ℕ) → IsScheduled (set_at cancel time)
  set_at-IsScheduled true time = others-IsTimed at owner from xs v
  set_at-IsScheduled false time =
      insert-IsTimed at owner (record { uptime = time; pid = from }) (others at owner from xs)
        (due-others_self at owner from xs v.single) (others-IsTimed at owner from xs v)

  alarm_of-others :
      (p : ℕ) → alarm_of p (others at owner from xs) ≡ (if from == p then none else alarm_of p xs)
  alarm_of-others p = elim (Bool-cases (from == p)) [
    | inl b ↦ ground (arith, due-others_self at owner from xs v.single)
    | inr b ↦ rw b (due-others_other at owner from p xs (ground arith))
  ]

  alarm_of-set_at :
      (cancel : Bool) (time p : ℕ)
      → alarm_of p (set_at cancel time)
        ≡ (if from == p then (if cancel then none else some time) else alarm_of p xs)
  alarm_of-set_at true time p = alarm_of-others p
  alarm_of-set_at false time p =
      let e : Sigalrm = record { uptime = time; pid = from } in
      let new =
        due-insert at owner p e (others at owner from xs)
          (due-others_self at owner from xs v.single) in
      new ∙ ground (arith, alarm_of-others p)

-- alarm(): when the list of SIGALRMs is sorted and has at most one for each process, so it is
-- afterwards. The sender's SIGALRM is due after the seconds that it asks for, or cancelled for 0,
-- no other process' SIGALRM changes, and the result is the seconds that were left of the sender's
-- old SIGALRM, rounded up, or 0 if it had none.
pub timer_sigalrm_lem :
    (t : Timer) (m : ℕ)
    → IsScheduled t.next_sigalrm
    → let t' = timer_sigalrm t m in
      let from = (t.mail.msg m).from in
      let seconds = (t.args m).seconds in
      IsScheduled t'.next_sigalrm
      × ((p : ℕ)
          → alarm_of p t'.next_sigalrm ≡ (
              if from == p
              then (if seconds == 0 then none else some ((t.uptime + seconds * hz) % 2 ^ 32))
              else alarm_of p t.next_sigalrm))
      × Rounded t.uptime (alarm_of from t.next_sigalrm) (t'.args m).ret_val
unfolding timer_sigalrm
timer_sigalrm_lem t m v =
    let from = (t.mail.msg m).from in
    let seconds = (t.args m).seconds in
    let time = (t.uptime + seconds * hz) % 2 ^ 32 in
    let here : (m == m) ≡ true = ground arith in
    (
      set_at-IsScheduled t.next_sigalrm from v (seconds == 0) time,
      λ p. alarm_of-set_at t.next_sigalrm from v (seconds == 0) time p,
      rw here (
          seconds_left-Rounded t.uptime from t.next_sigalrm
            (take_first (λ x. x.pid == from) t.next_sigalrm).0
            (take_first-Taken at owner from t.next_sigalrm)),
    )
