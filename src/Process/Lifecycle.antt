-- ===== src/Process/Lifecycle.antt =====
-- Creating and destroying processes keeps the table valid.
use brainix_old.Base.{
  ℕ, ◌<◌, ◌≡◌, ◌≢◌, ◌⊎◌, refl, ◌∙◌, sym, Bool, true, false, Option, none, some, List, [], ◌∷◌, ◌++◌,
  arith, ◌==◌, erase, Bool-cases, inl, inr, if◌then◌else◌, update, erase_not_mem,
}
use brainix_old.Process.{
  Proc, Procs, Claim, found, full, out_of_fuel, num_procs, nonexist, proc_enq, proc_deq,
  proc_create, proc_destroy, create_in, calc_next_pid, used, new_slot, orphan_group,
}
use brainix_old.Process.Valid.{IsValid, proc_enq-IsValid, proc_deq-IsValid}
use brainix_old.Process.Pid.{Claimed, calc_next_pid_lem}
use brainix_old.Process.Sched.{not_queued}

-- Only the slots, their states and numbers and the queue matter to validity.
IsValid-frame :
    (s t : Procs) (xs : List ℕ)
    → IsValid s xs
    → t.links ≡ s.links
    → t.ready_q ≡ s.ready_q
    → ((k : ℕ)
        → k < num_procs
        → ((t.proc k).state ≡ (s.proc k).state) × ((t.proc k).pid ≡ (s.proc k).pid))
    → IsValid t xs
IsValid-frame s t xs v el eq same = record {
  queue = rw (el, eq) v.queue;
  in_table = v.in_table;
  queued_ready = λ k i. (same k (v.in_table k i)).0 ∙ v.queued_ready k i;
  ready_queued = λ k lt r. v.ready_queued k lt (sym (same k lt).0 ∙ r);
  alone = λ k lt out. rw el (v.alone k lt out);
  named = λ k lt. (same k lt).1 ∙ v.named k lt;
}

-- The ids that a process inherits.
abbrev pub inherited : Proc → List ℕ
inherited p = p.egid ∷ p.euid ∷ p.gid ∷ p.pgrp ∷ p.uid ∷ []

abbrev pub times : Proc → List ℕ
times p = p.utime ∷ p.stime ∷ p.cutime ∷ p.cstime ∷ p.kernel_time ∷ []

-- What `proc_create` has done: the process was not there, it inherits from the current process, its
-- times are 0, and it is last in the ready queue; or nothing was created, because every slot is in
-- use or no task could be made for a slot that was free.
abbrev pub Created : (created : ℕ → Bool) → Procs → List ℕ → Option ℕ × Procs → Type 0
Created created s xs (none, t) =
    IsValid t xs
    × (t.proc ≡ s.proc)
    × (((k : ℕ) → k < num_procs → (s.proc k).state ≢ nonexist)
        ⊎ ((p : ℕ) × (p < num_procs) × ((s.proc p).state ≡ nonexist) × (created p ≡ false)))
Created created s xs (some p, t) =
    (p < num_procs)
    × ((s.proc p).state ≡ nonexist)
    × (created p ≡ true)
    × IsValid t (xs ++ (p ∷ []))
    × ((t.proc p).pid ≡ p)
    × ((t.proc p).ppid ≡ s.current_proc)
    × (inherited (t.proc p) ≡ inherited (s.proc s.current_proc))
    × (times (t.proc p) ≡ 0 ∷ 0 ∷ 0 ∷ 0 ∷ 0 ∷ [])

claimed_slot : Procs → ℕ → Procs
claimed_slot s p = record s {
  last_pid = p;
  proc = update s.proc p (new_slot (record s { last_pid = p }) p);
}

claimed-IsValid :
    (s : Procs) (xs : List ℕ) (p : ℕ) → IsValid s xs → p < num_procs → IsValid (claimed_slot s p) xs
unfolding claimed_slot new_slot
claimed-IsValid s xs p v lt =
    IsValid-frame s (claimed_slot s p) xs v refl refl (λ k h. ground (arith, v.named k h))

-- The new slot as it stands after it has been enqueued.
claimed_proc :
    (s : Procs) (p : ℕ)
    → (s.proc s.current_proc).pid ≡ s.current_proc
    → let x = (proc_enq (claimed_slot s p) p).proc p in
      (x.pid ≡ p)
      × (x.ppid ≡ s.current_proc)
      × (inherited x ≡ inherited (s.proc s.current_proc))
      × (times x ≡ 0 ∷ 0 ∷ 0 ∷ 0 ∷ 0 ∷ [])
unfolding claimed_slot new_slot proc_enq
claimed_proc s p e = let here : (p == p) ≡ true = ground arith in rw (here, e) (refl, e, refl, refl)

module _ (created : ℕ → Bool) (s : Procs) (xs : List ℕ) (p : ℕ) (v : IsValid s xs) where
  create_found :
      s.current_proc < num_procs
      → Claimed (used s) s.last_pid (found p)
      → created p ≡ true
      → Created created s xs (create_in created s (found p))
  unfolding create_in claimed_slot
  create_found here ok e =
      let lt : p < num_procs = omega (arith, ok.2) in
      let free : (s.proc p).state ≡ nonexist = ground (arith, ok.3) in
      let out = not_queued s xs p v (omega arith) in
      let enq = proc_enq-IsValid (claimed_slot s p) xs p (claimed-IsValid s xs p v lt) lt out in
      let who = claimed_proc s p (v.named s.current_proc here) in
      rw e (
        lt,
        free,
        e,
        IsValid-frame _ _ (xs ++ (p ∷ [])) enq refl refl (λ k h. (refl, refl)),
        who.0,
        who.1,
        who.2,
        who.3,
      )

  create_failed :
      Claimed (used s) s.last_pid (found p)
      → created p ≡ false
      → Created created s xs (create_in created s (found p))
  unfolding create_in
  create_failed ok e =
      let free : (s.proc p).state ≡ nonexist = ground (arith, ok.3) in
      rw e (
        IsValid-frame s _ xs v refl refl (λ k h. (refl, refl)),
        refl,
        inr (p, omega (arith, ok.2), free, e),
      )

pub create_in-Created :
    (created : ℕ → Bool) (s : Procs) (xs : List ℕ) (c : Claim)
    → IsValid s xs
    → s.current_proc < num_procs
    → Claimed (used s) s.last_pid c
    → Created created s xs (create_in created s c)
create_in-Created created s xs (found p) v here ok = elim (Bool-cases (created p)) [
  | inl e ↦ create_found created s xs p v here ok e
  | inr e ↦ create_failed created s xs p v ok e
]
create_in-Created created s xs full v here ok =
    unfold create_in in (v, refl, inl λ k lt. (let t = ok k lt in ground arith))
create_in-Created created s xs out_of_fuel v here ok = absurd ok

-- On a valid table whose current process and last claimed slot are in it, `proc_create` puts a new
-- process at the end of the ready queue, in a slot that was free and for which a task could be made,
-- with the user, group and process group ids of the current process, which is its parent, and
-- with all times 0. It reports failure only if every slot is in use, or no task could be made for a
-- free slot, and then changes no process.
pub proc_create_lem :
    (created : ℕ → Bool) (s : Procs) (xs : List ℕ)
    → IsValid s xs
    → s.current_proc < num_procs
    → s.last_pid < num_procs
    → Created created s xs (proc_create created s)
unfolding proc_create
proc_create_lem created s xs v here h =
    create_in-Created created s xs (calc_next_pid s) v here (calc_next_pid_lem s h)

group_state :
    (s : Procs) (p k : ℕ)
    → (((orphan_group s p).proc k).state ≡ (s.proc k).state)
      × (((orphan_group s p).proc k).pid ≡ (s.proc k).pid)
unfolding orphan_group
group_state s p k = ground arith

IsValid-orphaned :
    (s : Procs) (xs : List ℕ) (p : ℕ)
    → IsValid s xs
    → IsValid (if (s.proc p).pgrp == p then orphan_group s p else s) xs
IsValid-orphaned s xs p v = elim (Bool-cases ((s.proc p).pgrp == p)) [
  | inl e ↦
      let same = λ (k : ℕ) (h : k < num_procs). group_state s p k in
      let w =
        IsValid-frame s (orphan_group s p) xs v (unfold orphan_group in refl)
          (unfold orphan_group in refl) same in
      rw e w
  | inr e ↦ rw e v
]

-- On a valid table, `proc_destroy` frees the slot of a process in any state, and takes the process out of the ready
-- queue if it is there; the others keep their order.
pub proc_destroy_lem :
    (s : Procs) (xs : List ℕ) (p : ℕ)
    → IsValid s xs
    → p < num_procs
    → IsValid (proc_destroy s p) (erase p xs) × (((proc_destroy s p).proc p).state ≡ nonexist)
unfolding proc_destroy
proc_destroy_lem s xs p v lt = elim (Bool-cases ((s.proc p).state == nonexist)) [
  | inl e ↦
      let out = not_queued s xs p v (ground arith) in
      rw (e, erase_not_mem p xs out) (v, ground arith)
  | inr e ↦
      let t = if (s.proc p).pgrp == p then orphan_group s p else s in
      let v' = IsValid-orphaned s xs p v in
      rw e (proc_deq-IsValid t xs p v' lt nonexist (ground arith), unfold proc_deq in ground arith)
]
