-- ===== src/Str/Search.antt =====
-- Searching a string: strcspn() and strstr().
use brainix_old.Base.{
  ℕ, zero, suc, ◌+◌, ◌-◌, ◌<◌, ◌≡◌, ◌≢◌, refl, true, false, some, ◌==◌, arith, Bool-cases, inl, inr,
  leb, ◌%◌,
}
use brainix_old.Str.{
  Memory, strlen, strncmp, strcspn, strcspn_outer, strstr, find_sub, is_zero, diff, char_diff,
}
use brainix_old.Str.Length.{IsString, IsString-later, first_byte, last_byte, strlen_lem}

strcspn_outer_lem :
    (fuel : ℕ) (m : Memory) (s1 p1 p2 n : ℕ)
    → IsString m p1 n
    → n < fuel
    → strcspn_outer fuel m s1 p1 p2 ≡ some (p1 + n - s1)
unfolding strcspn_outer
strcspn_outer_lem zero m s1 p1 p2 n h lt = absurd (omega arith)
strcspn_outer_lem (suc fuel) m s1 p1 p2 zero h lt =
    let e = last_byte m p1 h in let e0 : p1 + 0 ≡ p1 = omega arith in rw (e, e0) refl
strcspn_outer_lem (suc fuel) m s1 p1 p2 (suc n) h lt =
    let e : p1 + 1 + n ≡ p1 + suc n = omega arith in
    rw (first_byte m p1 n h, ← e)
      (strcspn_outer_lem fuel m s1 (p1 + 1) _ n (IsString-later m p1 n h) (omega arith))

-- `strcspn` does not look at what is in s2: on every string s1 it ends, and returns strlen(s1).
pub strcspn-strlen :
    (fuel : ℕ) (m : Memory) (s1 s2 n : ℕ)
    → IsString m s1 n
    → n < fuel
    → strcspn fuel m s1 s2 ≡ strlen fuel m s1
unfolding strcspn
strcspn-strlen fuel m s1 s2 n h lt =
    let e : s1 + n - s1 ≡ n = omega arith in
    rw (strlen_lem fuel m s1 n h lt, strcspn_outer_lem fuel m s1 s1 s2 n h lt, e) refl

-- The n bytes at p are those at s.
abbrev pub Agrees : Memory → (p s n : ℕ) → Type 0
Agrees m p s n = (i : ℕ) → i < n → m (p + i) ≡ m (s + i)

Agrees-later : (m : Memory) (p s n : ℕ) → Agrees m p s (suc n) → Agrees m (p + 1) (s + 1) n
Agrees-later m p s n h i lt =
    let e : p + 1 + i ≡ p + suc i = omega arith in
    let e' : s + 1 + i ≡ s + suc i = omega arith in rw (e, e') (h (suc i) (omega arith))

Agrees-first : (m : Memory) (p s n : ℕ) → Agrees m p s (suc n) → m p ≡ m s
Agrees-first m p s n h =
    let e : p + 0 ≡ p = omega arith in
    let e' : s + 0 ≡ s = omega arith in let here = h 0 (omega arith) in rw (e, e') at here

strncmp-Agrees : (m : Memory) (p s n : ℕ) → Agrees m p s n → is_zero (strncmp m p s n) ≡ true
unfolding strncmp
strncmp-Agrees m p s zero h = refl
strncmp-Agrees m p s (suc n) h =
    let same : (m p == m s) ≡ true = (let e = Agrees-first m p s n h in ground arith) in
    rw same (elim (Bool-cases (m p == 0)) [
      | inl q ↦ rw q refl
      | inr q ↦ rw q (strncmp-Agrees m (p + 1) (s + 1) n (Agrees-later m p s n h))
    ])

Agrees-cons :
    (m : Memory) (p s n : ℕ) → m p ≡ m s → Agrees m (p + 1) (s + 1) n → Agrees m p s (suc n)
Agrees-cons m p s n e h zero lt =
    let e0 : p + 0 ≡ p = omega arith in let e1 : s + 0 ≡ s = omega arith in rw (e0, e1) e
Agrees-cons m p s n e h (suc i) lt =
    let e0 : p + 1 + i ≡ p + suc i = omega arith in
    let e1 : s + 1 + i ≡ s + suc i = omega arith in rw (← e0, ← e1) (h i (omega arith))

diff-zero : (a b : ℕ) → a ≢ b → is_zero (diff a b) ≡ false
diff-zero a b ne = elim (Bool-cases (leb b a)) [ inl q ↦ rw q (ground arith) | inr q ↦ rw q refl ]

char_diff-zero : (a b : ℕ) → a < 256 → b < 256 → a ≢ b → is_zero (char_diff a b) ≡ false
char_diff-zero a b la lb ne = diff-zero ((a + 128) % 256) ((b + 128) % 256) (λ e. ne (omega arith))

Agrees-strncmp :
    (m : Memory) (p s n : ℕ)
    → ((a : ℕ) → m a < 256)
    → IsString m s n
    → is_zero (strncmp m p s n) ≡ true
    → Agrees m p s n
unfolding strncmp
Agrees-strncmp m p s zero bytes h z = λ i lt. absurd (omega arith)
Agrees-strncmp m p s (suc n) bytes h z =
    let some_byte = first_byte m s n h in
    elim (Bool-cases (m p == m s)) [
      | inl q ↦
          let same : m p ≡ m s = ground arith in
          let some_byte' : (m p == 0) ≡ false = rw same some_byte in
          Agrees-cons m p s n same (
            Agrees-strncmp m (p + 1) (s + 1) n bytes (IsString-later m s n h)
              (rw (q, some_byte') at z))
      | inr q ↦
          let end = char_diff-zero (m p) (m s) (bytes p) (bytes s) (λ e. ground arith) in
          elim (Bool-cases (m p == 0)) [
            | inl c ↦ absurd (let z' = rw (q, c) at z in ground arith)
            | inr c ↦ absurd (let z' = rw (q, c, some_byte) at z in ground arith)
          ]
    ]

find_sub_lem :
    (fuel : ℕ) (m : Memory) (p s2 n k : ℕ)
    → ((a : ℕ) → m a < 256)
    → IsString m s2 (suc n)
    → Agrees m (p + k) s2 (suc n)
    → ((j : ℕ) → j < k → ¬ Agrees m (p + j) s2 (suc n))
    → k < fuel
    → find_sub fuel m p s2 (suc n) ≡ some (some (p + k))
unfolding find_sub
find_sub_lem zero m p s2 n k bytes h at before lt = absurd (omega arith)
find_sub_lem (suc fuel) m p s2 n zero bytes h at before lt =
    let e0 : p + 0 ≡ p = omega arith in
    let here : Agrees m p s2 (suc n) = rw e0 at at in
    let first : (m p == 0) ≡ false = rw (Agrees-first m p s2 n here) (first_byte m s2 n h) in
    rw (strncmp-Agrees m p s2 (suc n) here, first, e0) refl
find_sub_lem (suc fuel) m p s2 n (suc k) bytes h at before lt =
    let e : p + 1 + k ≡ p + suc k = omega arith in
    let e0 : p + 0 ≡ p = omega arith in
    elim (Bool-cases (is_zero (strncmp m p s2 (suc n)))) [
      | inl q ↦ absurd (before 0 (omega arith) (rw e0 (Agrees-strncmp m p s2 (suc n) bytes h q)))
      | inr q ↦
          rw (q, ← e)
            (find_sub_lem fuel m (p + 1) s2 n k bytes h (rw e at)
              (λ j lj.
                let ej : p + 1 + j ≡ p + suc j = omega arith in
                rw ej (before (suc j) (omega arith)))
              (omega arith))
    ]

-- `strstr` returns the first place from s1 on where the bytes of s2 stand, if there is one and s2 is
-- not empty, within as many rounds as the place is far and as s2 is long.
pub strstr_lem :
    (fuel : ℕ) (m : Memory) (s1 s2 n k : ℕ)
    → ((a : ℕ) → m a < 256)
    → IsString m s2 (suc n)
    → Agrees m (s1 + k) s2 (suc n)
    → ((j : ℕ) → j < k → ¬ Agrees m (s1 + j) s2 (suc n))
    → k < fuel
    → suc n < fuel
    → strstr fuel m s1 s2 ≡ some (some (s1 + k))
unfolding strstr
strstr_lem fuel m s1 s2 n k bytes h at before lt lt' =
    rw (strlen_lem fuel m s2 (suc n) h lt') (find_sub_lem fuel m s1 s2 n k bytes h at before lt)
