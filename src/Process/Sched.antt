-- ===== src/Process/Sched.antt =====
-- What the scheduler picks, and that sleeping, waking and scheduling keep the table valid.
use brainix_old.Base.{
  ℕ, ◌<◌, ◌≡◌, ◌≢◌, refl, sym, ◌∙◌, Bool, true, false, ◌||◌, Option, none, some, List, [], ◌∷◌,
  ◌++◌, arith, ◌==◌, mem, length, erase, Bool-cases, inl, inr, if◌then◌else◌, mem-append,
  Option-cases,
}
use brainix_old.Ring.{Links}
use brainix_old.Ring.Chain.{Chain}
use brainix_old.Ring.Queue.{IsQueue, IsQueue-rotate, rotate}
use brainix_old.Process.{
  Procs, num_procs, idle_pid, ready, blocked, proc_enq, proc_deq, proc_sched, proc_sleep,
  proc_wakeup, switch_to,
}
use brainix_old.Process.Valid.{IsValid, proc_enq-IsValid, proc_deq-IsValid}

pub mem-rotate : (k : ℕ) (xs : List ℕ) → mem k (rotate xs) ≡ mem k xs
mem-rotate k [] = refl
mem-rotate k (x ∷ xs) = ground (arith, mem-append k xs (x ∷ []))

-- The current process gives up its turn: the idle process, or one that has put itself to sleep.
abbrev pub off_queue : Procs → Bool
off_queue s = (s.current_proc == idle_pid) || ((s.proc s.current_proc).state == blocked)

-- The ready queue that scheduling leaves.
abbrev pub turned : Procs → List ℕ → List ℕ
turned s xs = if off_queue s then xs else rotate xs

-- The process at the front, the idle process if there is none.
abbrev pub front : List ℕ → ℕ
front [] = idle_pid
front (x ∷ xs) = x

IsValid-turn :
    (s : Procs) (h : ℕ) (xs : List ℕ)
    → IsValid s xs
    → s.ready_q ≡ some h
    → IsValid (record s { ready_q = some (s.links.next h) }) (rotate xs)
IsValid-turn s h xs v e = record {
  queue = IsQueue-rotate s.links h xs (rw e at v.queue);
  in_table = λ k i. ground (arith, mem-rotate k xs, v.in_table k);
  queued_ready = λ k i. ground (arith, mem-rotate k xs, v.queued_ready k);
  ready_queued = λ k lt r. ground (arith, mem-rotate k xs, v.ready_queued k lt);
  alone = λ k lt out. ground (arith, mem-rotate k xs, v.alone k lt);
  named = v.named;
}

switch_to-IsValid : (s : Procs) (p : ℕ) (xs : List ℕ) → IsValid s xs → IsValid (switch_to s p).0 xs
unfolding switch_to
switch_to-IsValid s p xs v = elim (Bool-cases (p == s.current_proc)) [
  | inl e ↦ rw e v
  | inr e ↦ rw e (record {
    queue = v.queue;
    in_table = v.in_table;
    queued_ready = v.queued_ready;
    ready_queued = v.ready_queued;
    alone = v.alone;
    named = v.named;
  })
]

current-switch_to : (s : Procs) (p : ℕ) → (switch_to s p).0.current_proc ≡ p
unfolding switch_to
current-switch_to s p = ground arith

front_of_queue :
    (s : Procs) (h : ℕ) (xs : List ℕ) → IsValid s xs → s.ready_q ≡ some h → front xs ≡ h
front_of_queue s h [] v e = absurd (rw e at v.queue)
front_of_queue s h (x ∷ xs) v e =
    let q : IsQueue s.links (some h) (x ∷ xs) = rw e at v.queue in ground arith

empty_queue : (s : Procs) (xs : List ℕ) → IsValid s xs → s.ready_q ≡ none → xs ≡ []
empty_queue s [] v e = refl
empty_queue s (x ∷ xs) v e = absurd (rw e at v.queue)

turned-empty : (s : Procs) (xs : List ℕ) → xs ≡ [] → turned s xs ≡ xs
turned-empty s [] e = ground arith
turned-empty s (x ∷ xs) e = absurd (cc)

idle_alone : (s : Procs) (xs : List ℕ) → IsValid s xs → xs ≡ [] → s.links.next idle_pid ≡ front xs
idle_alone s [] v e = (v.alone 0 (omega arith) refl).0
idle_alone s (x ∷ xs) v e = absurd (cc)

-- The three branches of the scheduler.
proc_sched-none :
    (s : Procs) → s.ready_q ≡ none → proc_sched s ≡ switch_to s (s.links.next idle_pid)
unfolding proc_sched
proc_sched-none s e = ground arith

proc_sched_off :
    (s : Procs) (h : ℕ) → s.ready_q ≡ some h → off_queue s ≡ true → proc_sched s ≡ switch_to s h
unfolding proc_sched
proc_sched_off s h e off = ground arith

proc_sched_on :
    (s : Procs) (h : ℕ)
    → s.ready_q ≡ some h
    → off_queue s ≡ false
    → proc_sched s ≡ switch_to (record s { ready_q = some (s.links.next h) }) (s.links.next h)
unfolding proc_sched
proc_sched_on s h e on = ground arith

-- On a valid table, scheduling keeps the table valid, turns the queue by one place unless the current process is
-- off it, and runs the process at its front, or the idle process when nothing is ready.
pub proc_sched_lem :
    (s : Procs) (xs : List ℕ)
    → IsValid s xs
    → IsValid (proc_sched s).0 (turned s xs) × ((proc_sched s).0.current_proc ≡ front (turned s xs))
proc_sched_lem s xs v = elim (Option-cases s.ready_q) [
  | inl e ↦
      let nil = empty_queue s xs v e in
      rw (proc_sched-none s e, turned-empty s xs nil)
        (
          switch_to-IsValid s (s.links.next idle_pid) xs v,
          current-switch_to s (s.links.next idle_pid) ∙ idle_alone s xs v nil,
        )
  | inr (h, e) ↦ elim (Bool-cases (off_queue s)) [
    | inl off ↦
        rw (proc_sched_off s h e off, off)
          (switch_to-IsValid s h xs v, current-switch_to s h ∙ sym (front_of_queue s h xs v e))
    | inr on ↦
        let v' = IsValid-turn s h xs v e in
        let s' : Procs = record s { ready_q = some (s.links.next h) } in
        rw (proc_sched_on s h e on, on)
          (
            switch_to-IsValid s' (s.links.next h) (rotate xs) v',
            current-switch_to s' (s.links.next h)
                ∙ sym (front_of_queue s' (s.links.next h) (rotate xs) v' refl),
          )
  ]
]

pub not_queued :
    (s : Procs) (xs : List ℕ) (p : ℕ) → IsValid s xs → (s.proc p).state ≢ ready → mem p xs ≡ false
not_queued s xs p v ne = elim (Bool-cases (mem p xs)) [
  | inl i ↦ absurd (ne (v.queued_ready p i))
  | inr out ↦ out
]

next_of_last :
    (l : Links) (a : ℕ) (xs : List ℕ) (p b : ℕ) → Chain l a (xs ++ (p ∷ [])) b → l.next p ≡ b
next_of_last l a [] p b s = s.2.0
next_of_last l a (x ∷ xs) p b s = next_of_last l x xs p b s.2

-- The woken process points at itself exactly when it is alone in the queue.
woken_alone :
    (l : Links) (q : Option ℕ) (xs : List ℕ) (p : ℕ)
    → IsQueue l q (xs ++ (p ∷ []))
    → (p == l.next p) ≡ (length xs == 0)
woken_alone l none [] p s = absurd s
woken_alone l none (x ∷ xs) p s = absurd s
woken_alone l (some h) [] p s = ground arith
woken_alone l (some h) (x ∷ xs) p s =
    let e = next_of_last l x xs p x s.1 in let e' = mem-append x xs (p ∷ []) in ground arith

turned_one : (s : Procs) (p : ℕ) → turned s (p ∷ []) ≡ p ∷ []
turned_one s p = ground arith

eq_blocked : (s : Procs) (p : ℕ) → (s.proc p).state ≡ blocked → ((s.proc p).state == blocked) ≡ true
eq_blocked s p b = ground arith

eq_ready : (s : Procs) (p : ℕ) → (s.proc p).state ≡ ready → ((s.proc p).state == ready) ≡ true
eq_ready s p r = ground arith

-- On a valid table, a process that is asleep is woken: it goes to the end of the ready queue. If the queue was
-- empty it runs at once; otherwise the current process runs on.
pub proc_wakeup_lem :
    (s : Procs) (xs : List ℕ) (p : ℕ)
    → IsValid s xs
    → p < num_procs
    → (s.proc p).state ≡ blocked
    → IsValid (proc_wakeup s p).0 (xs ++ (p ∷ []))
      × ((proc_wakeup s p).0.current_proc ≡ (if length xs == 0 then p else s.current_proc))
unfolding proc_wakeup
proc_wakeup_lem s [] p v lt b =
    let woken = proc_enq-IsValid s [] p v lt refl in
    let alone = woken_alone (proc_enq s p).links (proc_enq s p).ready_q [] p woken.queue in
    let run = proc_sched_lem (proc_enq s p) (p ∷ []) woken in
    let go = rw (turned_one (proc_enq s p) p) at run in rw (eq_blocked s p b, alone) go
proc_wakeup_lem s (x ∷ xs) p v lt b =
    let out = not_queued s (x ∷ xs) p v (ground arith) in
    let woken = proc_enq-IsValid s (x ∷ xs) p v lt out in
    let alone = woken_alone (proc_enq s p).links (proc_enq s p).ready_q (x ∷ xs) p woken.queue in
    let more : (length (x ∷ xs) == 0) ≡ false = ground arith in
    rw (eq_blocked s p b, alone, more) (woken, unfold proc_enq in refl)

-- On a valid table, a process that is ready is put to sleep: it leaves the ready queue, wherever it stands in it,
-- and the others keep their order. If it is the current process, the first one in the queue runs
-- next, or the idle process if there is none; otherwise the current process runs on.
pub proc_sleep_lem :
    (s : Procs) (xs : List ℕ) (p : ℕ)
    → IsValid s xs
    → p < num_procs
    → (s.proc p).state ≡ ready
    → IsValid (proc_sleep s p).0 (erase p xs)
      × ((proc_sleep s p).0.current_proc
          ≡ (if p == s.current_proc then front (erase p xs) else s.current_proc))
unfolding proc_sleep
proc_sleep_lem s xs p v lt r =
    let d = proc_deq-IsValid s xs p v lt blocked (ground arith) in
    elim (Bool-cases (p == s.current_proc)) [
      | inl e ↦
          let run = proc_sched_lem (proc_deq s p blocked) (erase p xs) d in
          let off : off_queue (proc_deq s p blocked) ≡ true = unfold proc_deq in ground arith in
          let go = rw off at run in rw (eq_ready s p r, e) go
      | inr e ↦ rw (eq_ready s p r, e) (d, unfold proc_deq in refl)
    ]
