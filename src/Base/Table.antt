-- ===== src/Base/Table.antt =====
-- Searching a table from its first slot on.
use brainix_old.Base.{
  ℕ, zero, suc, ◌+◌, ◌<◌, ◌≤◌, ◌≡◌, Bool, true, false, Option, none, some, ◌==◌, arith,
  if◌then◌else◌, Bool-cases, inl, inr,
}

-- The first of the n numbers from k on that passes the test.
unfoldable pub first_where : (ℕ → Bool) → (k n : ℕ) → Option ℕ
first_where test k zero = none
first_where test k (suc n) =
    let rest = first_where test (k + 1) n in if test k then some k else rest

-- The first of the numbers from k on, before e, that passes the test, or none does.
abbrev pub First : (ℕ → Bool) → (k e : ℕ) → Option ℕ → Type 0
First test k e none = (i : ℕ) → k ≤ i → i < e → test i ≡ false
First test k e (some j) =
    (k ≤ j) × (j < e) × (test j ≡ true) × ((i : ℕ) → k ≤ i → i < j → test i ≡ false)

before_too :
    (test : ℕ → Bool) (k e : ℕ)
    → test k ≡ false
    → ((i : ℕ) → k + 1 ≤ i → i < e → test i ≡ false)
    → (i : ℕ) → k ≤ i
    → i < e
    → test i ≡ false
before_too test k e h after i lo hi = elim (Bool-cases (i == k)) [
  | inl q ↦ let q' : i ≡ k = ground arith in rw q' h
  | inr q ↦ after i (ground arith) hi
]

First-later :
    (test : ℕ → Bool) (k e : ℕ) (r : Option ℕ)
    → test k ≡ false
    → First test (k + 1) e r
    → First test k e r
First-later test k e none h f = before_too test k e h f
First-later test k e (some j) h f = (omega arith, f.1, f.2, before_too test k j h f.3)

pub first_where-First : (test : ℕ → Bool) (k n : ℕ) → First test k (k + n) (first_where test k n)
unfolding first_where
first_where-First test k zero = λ i lo hi. absurd (omega arith)
first_where-First test k (suc n) = elim (Bool-cases (test k)) [
  | inl e ↦ rw e (omega arith, omega arith, e, λ i lo hi. absurd (omega arith))
  | inr e ↦
      let end : k + 1 + n ≡ k + suc n = omega arith in
      let rest = rw end at (first_where-First test (k + 1) n) in
      rw e (First-later test k (k + suc n) (first_where test (k + 1) n) e rest)
]
