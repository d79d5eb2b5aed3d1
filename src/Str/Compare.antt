-- ===== src/Str/Compare.antt =====
-- What the functions that compare report: memcmp().
use brainix_old.Base.{
  ℕ, zero, suc, ◌+◌, ◌<◌, ◌≡◌, ◌≢◌, refl, ◌==◌, arith, Bool-cases, inl, inr, ◌⊎◌,
}
use brainix_old.Base.Int.{ℤ, pos}
use brainix_old.Str.{Memory, diff, memcmp}

-- What a comparison of n bytes says: 0 only if they are equal, and otherwise the difference of the
-- first two bytes that differ.
abbrev pub Compared : Memory → (s1 s2 n : ℕ) → ℤ → Type 0
Compared m s1 s2 n r =
    (((i : ℕ) → i < n → m (s1 + i) ≡ m (s2 + i)) × (r ≡ pos 0))
    ⊎ ((i : ℕ) × (i < n)
        × ((j : ℕ) → j < i → m (s1 + j) ≡ m (s2 + j))
        × (m (s1 + i) ≢ m (s2 + i))
        × (r ≡ diff (m (s1 + i)) (m (s2 + i))))

at_zero : (m : Memory) (s : ℕ) → m (s + 0) ≡ m s
at_zero m s = let e : s + 0 ≡ s = omega arith in rw e refl

at_next : (m : Memory) (s i : ℕ) → m (s + 1 + i) ≡ m (s + suc i)
at_next m s i = let e : s + 1 + i ≡ s + suc i = omega arith in rw e refl

equal_more :
    (m : Memory) (s1 s2 n : ℕ)
    → m s1 ≡ m s2
    → ((i : ℕ) → i < n → m (s1 + 1 + i) ≡ m (s2 + 1 + i))
    → (i : ℕ) → i < suc n
    → m (s1 + i) ≡ m (s2 + i)
equal_more m s1 s2 n h rest zero lt = rw (at_zero m s1, at_zero m s2) h
equal_more m s1 s2 n h rest (suc i) lt =
    rw (← at_next m s1 i, ← at_next m s2 i) (rest i (omega arith))

Compared-more :
    (m : Memory) (s1 s2 n : ℕ) (r : ℤ)
    → m s1 ≡ m s2
    → Compared m (s1 + 1) (s2 + 1) n r
    → Compared m s1 s2 (suc n) r
Compared-more m s1 s2 n r h (inl q) = inl (equal_more m s1 s2 n h q.0, q.1)
Compared-more m s1 s2 n r h (inr q) = inr (
  suc q.0,
  omega (arith, q.1),
  equal_more m s1 s2 q.0 h q.2,
  rw (← at_next m s1 q.0, ← at_next m s2 q.0) q.3,
  rw (← at_next m s1 q.0, ← at_next m s2 q.0) q.4,
)

-- `memcmp` returns 0 if the n bytes are equal, and otherwise the difference of the first two that
-- differ.
pub memcmp_lem : (m : Memory) (s1 s2 n : ℕ) → Compared m s1 s2 n (memcmp m s1 s2 n)
unfolding memcmp
memcmp_lem m s1 s2 zero = inl (λ i lt. absurd (omega arith), refl)
memcmp_lem m s1 s2 (suc n) = elim (Bool-cases (m s1 == m s2)) [
  | inl e ↦ rw e (Compared-more m s1 s2 n _ (ground arith) (memcmp_lem m (s1 + 1) (s2 + 1) n))
  | inr e ↦ rw e (
      inr (
        0,
        omega arith,
        λ j lt. absurd (omega arith),
        rw (at_zero m s1, at_zero m s2) (ground arith),
        rw (at_zero m s1, at_zero m s2) refl,
      ))
]
