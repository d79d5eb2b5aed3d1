-- ===== src/Process/RoundRobin.antt =====
-- Every process that is ready runs again: the scheduler goes round the ready queue.
use brainix_old.Base.{
  ℕ, zero, suc, ◌<◌, ◌≡◌, refl, sym, ◌∙◌, false, some, List, [], ◌∷◌, ◌++◌, arith, mem, get_elem?,
  length, length-append,
}
use brainix_old.Process.{Procs, idle_pid, ready, proc_sched, switch_to}
use brainix_old.Process.Valid.{IsValid}
use brainix_old.Process.Sched.{off_queue, front, proc_sched_lem, mem-rotate}

-- The state after n time slices, in which no process sleeps, wakes, starts or ends.
unfoldable pub slices : ℕ → Procs → Procs
slices zero s = s
slices (suc n) s = slices n (proc_sched s).0

state-switch_to : (s : Procs) (p : ℕ) → (switch_to s p).0.proc ≡ s.proc
unfolding switch_to
state-switch_to s p = ground arith

-- Scheduling changes no process.
pub proc-proc_sched : (s : Procs) → (proc_sched s).0.proc ≡ s.proc
unfolding proc_sched switch_to
proc-proc_sched s = ground arith

-- The current process is the first in the queue, and the idle process is not in it.
pub record IsRunning (s : Procs) (xs : List ℕ) : Type 0 where
  pub valid : IsValid s xs
  pub first : s.current_proc ≡ front xs
  pub busy : mem idle_pid xs ≡ false

IsRunning-step :
    (s : Procs) (x : ℕ) (xs : List ℕ)
    → IsRunning s (x ∷ xs)
    → IsRunning (proc_sched s).0 (xs ++ (x ∷ []))
IsRunning-step s x xs r =
    let st : (s.proc s.current_proc).state ≡ ready =
      r.valid.queued_ready s.current_proc (ground (arith, r.first)) in
    let on : off_queue s ≡ false = ground (arith, r.first, r.busy) in
    let run = proc_sched_lem s (x ∷ xs) r.valid in
    let go = rw on at run in
    record { valid = go.0; first = go.1; busy = mem-rotate idle_pid (x ∷ xs) ∙ r.busy }

get_elem?-append_left :
    (xs ys : List ℕ) (i : ℕ) → i < length xs → get_elem? (xs ++ ys) i ≡ get_elem? xs i
get_elem?-append_left [] ys i h = absurd (omega arith)
get_elem?-append_left (x ∷ xs) ys zero h = refl
get_elem?-append_left (x ∷ xs) ys (suc i) h = get_elem?-append_left xs ys i (omega arith)

-- On a valid table whose current process is the first in the ready queue, in which the idle process
-- is not, and while no process sleeps, wakes, starts or ends: each process in the ready queue runs after as many time slices as
-- there are processes before it.
pub slices_lem :
    (n : ℕ) (s : Procs) (xs : List ℕ)
    → IsRunning s xs
    → n < length xs
    → get_elem? xs n ≡ some (slices n s).current_proc
unfolding slices
slices_lem zero s [] r h = absurd (omega arith)
slices_lem zero s (x ∷ xs) r h = ground (arith, r.first)
slices_lem (suc n) s [] r h = absurd (omega arith)
slices_lem (suc n) s (x ∷ xs) r h =
    let rest =
      slices_lem n (proc_sched s).0 (xs ++ (x ∷ [])) (IsRunning-step s x xs r)
        (omega (arith, length-append xs (x ∷ []))) in
    sym (get_elem?-append_left xs (x ∷ []) n (omega arith)) ∙ rest
