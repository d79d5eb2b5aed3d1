-- ===== src/Block/Init.antt =====
-- `block_init`: the cache that it leaves.
use brainix_old.Base.{
  ℕ, zero, suc, ◌+◌, ◌<◌, ◌≤◌, ◌≡◌, refl, true, false, List, [], ◌∷◌, arith, ◌==◌, mem, length,
  Distinct, Bool-cases, inl, inr,
}
use brainix_old.Ring.Chain.{Chain}
use brainix_old.Block.{Cache, num_blocks, block_init}
use brainix_old.Block.Cached.{IsCache}

-- The n numbers from k on.
abbrev pub count_up : ℕ → ℕ → List ℕ
count_up k zero = []
count_up k (suc n) = k ∷ count_up (k + 1) n

mem-count_up : (j k n : ℕ) → mem j (count_up k n) ≡ true → (k ≤ j) × (j < k + n)
mem-count_up j k zero i = absurd (ground arith)
mem-count_up j k (suc n) i = elim (Bool-cases (j == k)) [
  | inl e ↦ ground arith
  | inr e ↦ ground (arith, mem-count_up j (k + 1) n)
]

pub all_counted : (j k n : ℕ) → k ≤ j → j < k + n → mem j (count_up k n) ≡ true
all_counted j k zero lo hi = absurd (omega arith)
all_counted j k (suc n) lo hi = elim (Bool-cases (j == k)) [
  | inl e ↦ rw e refl
  | inr e ↦ rw e (all_counted j (k + 1) n (ground arith) (omega arith))
]

before_count_up : (j k n : ℕ) → j < k → mem j (count_up k n) ≡ false
before_count_up j k zero h = refl
before_count_up j k (suc n) h = ground (arith, before_count_up j (k + 1) n)

Distinct-count_up : (k n : ℕ) → Distinct (count_up k n)
Distinct-count_up k zero = tt
Distinct-count_up k (suc n) =
    (before_count_up k (k + 1) n (omega arith), Distinct-count_up (k + 1) n)

length-count_up : (k n : ℕ) → length (count_up k n) ≡ n
length-count_up k zero = refl
length-count_up k (suc n) = ground (arith, length-count_up (k + 1) n)

module _ {Dev Data : Type 0} (c : Cache Dev Data) where
  init-Chain : (k n : ℕ) → k + n ≡ 79 → Chain (block_init c).links k (count_up (k + 1) n) 0
  unfolding block_init
  init-Chain k zero h = (ground arith, ground arith)
  init-Chain k (suc n) h = (ground arith, ground arith, init-Chain (k + 1) n (omega arith))

  -- `block_init` leaves a cache that holds no block, in the order of the table.
  pub block_init-IsCache : IsCache (block_init c) (count_up 0 num_blocks)
  block_init-IsCache = record {
    queue = (unfold block_init in refl, init-Chain 0 79 refl, Distinct-count_up 0 num_blocks);
    in_table = λ k i. (mem-count_up k 0 num_blocks i).1;
    whole = length-count_up 0 num_blocks;
    unique = λ j k mj mk ne ed eb.
        let lt = (mem-count_up j 0 num_blocks mj).1 in absurd (unfold block_init in ground arith);
  }
