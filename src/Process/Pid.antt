-- ===== src/Process/Pid.antt =====
-- `calc_next_pid` terminates and finds the next free slot.
use brainix_old.Base.{
  ℕ, zero, suc, ◌+◌, ◌-◌, ◌%◌, ◌<◌, ◌≡◌, Bool, true, false, ◌&&◌, ◌==◌, arith, Bool-cases, inl, inr,
  if◌then◌else◌, refl,
}
use mathlib.Core.Bool.{and-false}
use brainix_old.Process.{
  Procs, Claim, found, full, out_of_fuel, claim, used, calc_next_pid, num_procs,
}

-- The slot `i + 1` places after the bookmark.
abbrev pub after : ℕ → ℕ → ℕ
after b i = (b + i + 1) % num_procs

-- A claimed slot is the first free one after the bookmark; the table is full only if every slot
-- is in use; and the loop ends.
abbrev pub Claimed : (ℕ → Bool) → ℕ → Claim → Type 0
Claimed taken b (found p) =
    (d : ℕ) × (d < num_procs)
    × (p ≡ after b d)
    × (taken p ≡ false)
    × ((i : ℕ) → i < d → taken (after b i) ≡ true)
Claimed taken b full = (i : ℕ) → i < num_procs → taken i ≡ true
Claimed taken b out_of_fuel = ⊥

all_taken :
    (taken : ℕ → Bool) (b : ℕ)
    → b < num_procs
    → ((i : ℕ) → i < num_procs → taken (after b i) ≡ true)
    → (i : ℕ) → i < num_procs
    → taken i ≡ true
all_taken taken b hb all i hi =
    let k : ℕ = (i + 31 - b) % 32 in
    let e : after b k ≡ i = omega arith in rw e at (all k (omega arith))

longer :
    (taken : ℕ → Bool) (b k : ℕ)
    → ((i : ℕ) → i < k → taken (after b i) ≡ true)
    → taken (after b k) ≡ true
    → (i : ℕ) → i < suc k
    → taken (after b i) ≡ true
longer taken b k before t i hi = elim (Bool-cases (i == k)) [
  | inl e ↦ let e' : i ≡ k = ground arith in rw e' t
  | inr e ↦ before i (ground arith)
]

-- One round of the loop, at the slot that it looks at.
claim_round :
    (taken : ℕ → Bool) (fuel b p q : ℕ)
    → (p + 1) % num_procs ≡ q
    → claim taken (suc fuel) b p
      ≡ (if (q == b) && taken q then full else if taken q then claim taken fuel b q else found q)
unfolding claim
claim_round taken fuel b p q e = rw e

claim-Claimed :
    (taken : ℕ → Bool) (fuel k b p : ℕ)
    → b < num_procs
    → suc fuel + k ≡ num_procs
    → (p + 1) % num_procs ≡ after b k
    → ((i : ℕ) → i < k → taken (after b i) ≡ true)
    → Claimed taken b (claim taken (suc fuel) b p)
claim-Claimed taken zero k b p hb hf hp before = elim (Bool-cases (taken (after b k))) [
  | inl t ↦
      let last : (after b k == b) ≡ true = ground arith in
      rw (claim_round taken zero b p (after b k) hp, last, t)
        (all_taken taken b hb (λ i hi. longer taken b k before t i (omega arith)))
  | inr f ↦
      rw (claim_round taken zero b p (after b k) hp, f, and-false (after b k == b))
        (k, omega arith, refl, f, before)
]
claim-Claimed taken (suc fuel) k b p hb hf hp before = elim (Bool-cases (taken (after b k))) [
  | inl t ↦
      let rest =
        claim-Claimed taken fuel (suc k) b (after b k) hb (omega arith) (omega arith)
          (longer taken b k before t) in
      let ne : (after b k == b) ≡ false = ground arith in
      rw (claim_round taken (suc fuel) b p (after b k) hp, ne, t) rest
  | inr f ↦
      rw (claim_round taken (suc fuel) b p (after b k) hp, f, and-false (after b k == b))
        (k, omega arith, refl, f, before)
]

-- From a bookmark in the table, `calc_next_pid` ends within NUM_PROCS rounds. The slot that it claims is free, and every slot
-- between the last one claimed and it is in use; it reports failure only when every slot is.
pub calc_next_pid_lem :
    (s : Procs) → s.last_pid < num_procs → Claimed (used s) s.last_pid (calc_next_pid s)
unfolding calc_next_pid
calc_next_pid_lem s h =
    claim-Claimed (used s) 31 0 s.last_pid s.last_pid h refl (omega arith)
      (λ i hi. absurd (omega arith))
