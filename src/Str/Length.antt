-- ===== src/Str/Length.antt =====
-- Strings that end: strlen() and strcpy().
use brainix_old.Base.{
  ℕ, zero, suc, ◌+◌, ◌-◌, ◌<◌, ◌≡◌, ◌≢◌, refl, true, false, ◌==◌, update, arith, some, inl, inr,
  ◌⊎◌,
}
use brainix_old.Str.{Memory, find_end, strlen, strcpy, memcpy}
use brainix_old.Str.Copy.{UpSafe, UpSafe-step, copied, memcpy_lem}

-- A string of length n at s.
pub record IsString (m : Memory) (s n : ℕ) : Type 0 where
  pub nonzero : (i : ℕ) → i < n → m (s + i) ≢ 0
  pub ends : m (s + n) ≡ 0

pub IsString-later : (m : Memory) (s n : ℕ) → IsString m s (suc n) → IsString m (s + 1) n
IsString-later m s n h = record {
  nonzero =
      λ i lt. let e : s + 1 + i ≡ s + suc i = omega arith in rw e (h.nonzero (suc i) (omega arith));
  ends = let e : s + 1 + n ≡ s + suc n = omega arith in rw e h.ends;
}

pub first_byte : (m : Memory) (s n : ℕ) → IsString m s (suc n) → (m s == 0) ≡ false
first_byte m s n h =
    let ne : m (s + 0) ≢ 0 = h.nonzero 0 (omega arith) in
    let e : s + 0 ≡ s = omega arith in let ne' = rw e at ne in ground arith

pub last_byte : (m : Memory) (s : ℕ) → IsString m s 0 → m s ≡ 0
last_byte m s h = let e : s + 0 ≡ s = omega arith in rw e at h.ends

pub find_end_lem :
    (fuel : ℕ) (m : Memory) (s n : ℕ) → IsString m s n → n < fuel → find_end fuel m s ≡ some (s + n)
unfolding find_end
find_end_lem zero m s n h lt = absurd (omega arith)
find_end_lem (suc fuel) m s zero h lt =
    let e = last_byte m s h in let e0 : s + 0 ≡ s = omega arith in rw (e, e0) refl
find_end_lem (suc fuel) m s (suc n) h lt =
    let e : s + 1 + n ≡ s + suc n = omega arith in
    rw (first_byte m s n h, ← e)
      (find_end_lem fuel m (s + 1) n (IsString-later m s n h) (omega arith))

strlen-find_end :
    (fuel : ℕ) (m : Memory) (s p : ℕ) → find_end fuel m s ≡ some p → strlen fuel m s ≡ some (p - s)
unfolding strlen
strlen-find_end fuel m s p e = ground arith

-- `strlen` ends on every string, within one round more than its length, and returns its length.
pub strlen_lem :
    (fuel : ℕ) (m : Memory) (s n : ℕ) → IsString m s n → n < fuel → strlen fuel m s ≡ some n
strlen_lem fuel m s n h lt =
    let e : s + n - s ≡ n = omega arith in
    let at = strlen-find_end fuel m s (s + n) (find_end_lem fuel m s n h lt) in rw e at at

-- Writing before a string, or behind it, leaves it a string.
IsString-write :
    (m : Memory) (s p b n : ℕ)
    → (p < s) ⊎ (s + n < p)
    → IsString m s n
    → IsString (update m p b) s n
IsString-write m s p b n far h = record {
  nonzero = λ i lt. elim far [
    | inl q ↦ ground (arith, h.nonzero i)
    | inr q ↦ ground (arith, h.nonzero i)
  ];
  ends = elim far [ inl q ↦ ground (arith, h.ends) | inr q ↦ ground (arith, h.ends) ];
}

-- The bytes of a string, and its NUL byte, can be copied upwards.
apart : (s1 s2 n : ℕ) → UpSafe s1 s2 (suc (suc n)) → (s1 < s2 + 1) ⊎ (s2 + 1 + n < s1)
apart s1 s2 n (inl h) = inl (omega arith)
apart s1 s2 n (inr h) = inr (omega arith)

strcpy-memcpy :
    (fuel : ℕ) (m : Memory) (s1 s2 n : ℕ)
    → IsString m s2 n
    → UpSafe s1 s2 (suc n)
    → n < fuel
    → strcpy fuel m s1 s2 ≡ some (memcpy m s1 s2 (suc n))
unfolding strcpy memcpy
strcpy-memcpy zero m s1 s2 n h safe lt = absurd (omega arith)
strcpy-memcpy (suc fuel) m s1 s2 zero h safe lt =
    let z : (m s2 == 0) ≡ true = ground (arith, last_byte m s2 h) in rw z refl
strcpy-memcpy (suc fuel) m s1 s2 (suc n) h safe lt = rw (first_byte m s2 n h) (
    strcpy-memcpy fuel (update m s1 (m s2)) (s1 + 1) (s2 + 1) n
      (IsString-write m (s2 + 1) s1 (m s2) n (apart s1 s2 n safe) (IsString-later m s2 n h))
      (UpSafe-step s1 s2 (suc n) safe) (omega arith))

-- `strcpy` ends on every string s2, and leaves its bytes and its NUL byte at s1, and every other
-- byte as it was, when the two areas do not overlap or s1 lies before s2.
pub strcpy_lem :
    (fuel : ℕ) (m : Memory) (s1 s2 n : ℕ)
    → IsString m s2 n
    → UpSafe s1 s2 (suc n)
    → n < fuel
    → (m' : Memory) × (strcpy fuel m s1 s2 ≡ some m') × ((a : ℕ) → m' a ≡ copied m s1 s2 (suc n) a)
strcpy_lem fuel m s1 s2 n h safe lt = (
  memcpy m s1 s2 (suc n),
  strcpy-memcpy fuel m s1 s2 n h safe lt,
  λ a. memcpy_lem m s1 s2 (suc n) a safe,
)
