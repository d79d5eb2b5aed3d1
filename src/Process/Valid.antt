-- ===== src/Process/Valid.antt =====
-- What holds of the process table between operations, and that enqueuing and dequeuing keep it.
use brainix_old.Base.{
  ℕ, ◌<◌, ◌≡◌, ◌≢◌, true, false, ◌||◌, List, [], ◌∷◌, ◌++◌, arith, ◌==◌, mem, erase, Bool-cases,
  inl, inr, mem-append, mem-erase, mem-erase_ne, mem-erase_self, erase_not_mem,
}
use brainix_old.Ring.{self_link, unlink}
use brainix_old.Ring.Queue.{
  IsQueue, IsQueue-append, IsQueue-remove, IsQueue-remove_alone, IsQueue-frame, IsQueue-Distinct,
  append_links_frame, head_without, unlink_frame,
}
use brainix_old.Ring.Chain.{next-unlink, prev-unlink}
use brainix_old.Process.{Procs, num_procs, idle_pid, ready, proc_enq, proc_deq, proc_init}

-- `xs` is the ready queue, head first: a ring of slots of the table, which are the processes that
-- are ready, but for the idle process, which is ready and may be outside the queue. A process
-- outside the queue points at itself.
pub record IsValid (s : Procs) (xs : List ℕ) : Type 0 where
  pub queue : IsQueue s.links s.ready_q xs
  pub in_table : (k : ℕ) → mem k xs ≡ true → k < num_procs
  pub queued_ready : (k : ℕ) → mem k xs ≡ true → (s.proc k).state ≡ ready
  pub ready_queued :
      (k : ℕ) → k < num_procs → (s.proc k).state ≡ ready → (mem k xs || (k == idle_pid)) ≡ true
  pub alone :
      (k : ℕ) → k < num_procs → mem k xs ≡ false → (s.links.next k ≡ k) × (s.links.prev k ≡ k)
  pub named : (k : ℕ) → k < num_procs → (s.proc k).pid ≡ k

-- `proc_init` leaves an empty ready queue.
pub proc_init-IsValid : (s : Procs) → IsValid (proc_init s) []
unfolding proc_init
proc_init-IsValid s = record {
  queue = tt;
  in_table = λ k i. absurd (ground arith);
  queued_ready = λ k i. absurd (ground arith);
  ready_queued = λ k lt r. ground arith;
  alone = λ k lt out. ground arith;
  named = λ k lt. ground arith;
}

module _ (s : Procs) (xs : List ℕ) (p : ℕ) (v : IsValid s xs) (slot : p < num_procs) where
  -- On a valid table, `proc_enq` puts a process of the table that is not in the ready queue at the
  -- end of it, and the table stays valid.
  pub proc_enq-IsValid : mem p xs ≡ false → IsValid (proc_enq s p) (xs ++ (p ∷ []))
  unfolding proc_enq
  proc_enq-IsValid out = record {
    queue = IsQueue-append s.links s.ready_q xs p v.queue out;
    in_table = λ k i. ground (arith, mem-append k xs (p ∷ []), v.in_table k);
    queued_ready = λ k i. ground (arith, mem-append k xs (p ∷ []), v.queued_ready k);
    ready_queued = λ k lt r. ground (arith, mem-append k xs (p ∷ []), v.ready_queued k lt);
    alone = λ k lt i.
        let e = mem-append k xs (p ∷ []) in
        let out' : mem k xs ≡ false = ground arith in
        let ne : k ≢ p = ground arith in
        let same = append_links_frame s.links s.ready_q xs p k v.queue out' ne in
        let old = v.alone k lt out' in ground arith;
    named = λ k lt. ground (arith, v.named k lt);
  }

  -- `unlink` and the self-link of `proc_deq`, for a process in the queue or outside it.
  deq-IsQueue :
      IsQueue (self_link (unlink s.links p) p) (head_without s.links s.ready_q p) (erase p xs)
  deq-IsQueue = elim (Bool-cases (mem p xs)) [
    | inl i ↦
        let out = mem-erase_self p xs (IsQueue-Distinct s.links s.ready_q xs v.queue) in
        IsQueue-frame (unlink s.links p) (self_link (unlink s.links p) p) _ (erase p xs)
          (IsQueue-remove s.links s.ready_q xs p v.queue i)
          (λ k j. unfold self_link in ground arith)
    | inr out ↦
        let self = v.alone p slot out in
        rw (erase_not_mem p xs out) (
          IsQueue-frame (unlink s.links p) (self_link (unlink s.links p) p) _ xs
            (IsQueue-remove_alone s.links s.ready_q xs p v.queue out self.0 self.1)
            (λ k j. unfold self_link in ground arith))
  ]

  deq_alone :
      (k : ℕ)
      → k < num_procs
      → mem k (erase p xs) ≡ false
      → ((self_link (unlink s.links p) p).next k ≡ k)
        × ((self_link (unlink s.links p) p).prev k ≡ k)
  unfolding self_link
  deq_alone k lt j = elim (Bool-cases (k == p)) [
    | inl e ↦ ground arith
    | inr e ↦
        let out : mem k xs ≡ false = ground (arith, mem-erase_ne k p xs) in
        let old = v.alone k lt out in
        elim (Bool-cases (mem p xs)) [
          | inl i ↦ let same = unlink_frame s.links s.ready_q xs p k v.queue i out in ground arith
          | inr i ↦
              let self = v.alone p slot i in
              ground (arith, next-unlink s.links p k, prev-unlink s.links p k)
        ]
  ]

  -- On a valid table, `proc_deq` with a state other than READY takes a process out of the ready
  -- queue, if it is there, and leaves the others in order; the table stays valid.
  pub proc_deq-IsValid : (st : ℕ) → st ≢ ready → IsValid (proc_deq s p st) (erase p xs)
  unfolding proc_deq
  proc_deq-IsValid st ne =
      let gone = mem-erase_self p xs (IsQueue-Distinct s.links s.ready_q xs v.queue) in
      record {
        queue = deq-IsQueue;
        in_table = λ k i. ground (arith, mem-erase k p xs, v.in_table k);
        queued_ready = λ k i. ground (arith, mem-erase k p xs, v.queued_ready k);
        ready_queued = λ k lt r. ground (arith, mem-erase_ne k p xs, v.ready_queued k lt);
        alone = deq_alone;
        named = λ k lt. ground (arith, v.named k lt);
      }
