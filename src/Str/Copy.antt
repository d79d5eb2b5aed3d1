-- ===== src/Str/Copy.antt =====
-- What the functions that copy memory leave: memcpy(), memmove() and memset().
use brainix_old.Base.{
  ℕ, zero, suc, ◌+◌, ◌-◌, ◌%◌, ◌≤◌, ◌≡◌, ◌≢◌, ◌⊎◌, refl, ◌∙◌, Bool, true, false, ◌&&◌, ltb, leb,
  ◌==◌, if◌then◌else◌, update, arith, Bool-cases, inl, inr,
}
use brainix_old.Str.{Memory, memcpy, copy_back, memmove, memset, fill}

-- Whether the address is one of the n from p on.
abbrev pub within : (p n a : ℕ) → Bool
within p n a = leb p a && ltb a (p + n)

-- The memory m with the n bytes from s2 on, as they are in m, at s1.
abbrev pub copied : Memory → (s1 s2 n : ℕ) → Memory
copied m s1 s2 n a = if within s1 n a then m (s2 + a - s1) else m a

-- Copying upwards does not overwrite what it still has to read.
abbrev pub UpSafe : (s1 s2 n : ℕ) → Type 0
UpSafe s1 s2 n = (s1 ≤ s2) ⊎ (s2 + n ≤ s1)

pub UpSafe-step : (s1 s2 n : ℕ) → UpSafe s1 s2 (suc n) → UpSafe (s1 + 1) (s2 + 1) n
UpSafe-step s1 s2 n (inl h) = inl (omega arith)
UpSafe-step s1 s2 n (inr h) = inr (omega arith)

copied-up :
    (m : Memory) (s1 s2 n a : ℕ)
    → UpSafe s1 s2 (suc n)
    → copied (update m s1 (m s2)) (s1 + 1) (s2 + 1) n a ≡ copied m s1 s2 (suc n) a
copied-up m s1 s2 n a h = elim (Bool-cases (a == s1)) [
  | inl e ↦
      let e' : a ≡ s1 = ground arith in
      let at : s2 + a - s1 ≡ s2 = omega arith in rw at (ground arith)
  | inr e ↦
      let ne : a ≢ s1 = ground arith in
      elim (Bool-cases (within (s1 + 1) n a)) [
        | inl w ↦
            let w' : within s1 (suc n) a ≡ true = ground arith in
            let at : s2 + 1 + a - (s1 + 1) ≡ s2 + a - s1 = omega arith in
            let far : ((s2 + a - s1) == s1) ≡ false = elim h [
              | inl h ↦ ground arith
              | inr h ↦ ground arith
            ] in
            rw (w, w', at, far) refl
        | inr w ↦ let w' : within s1 (suc n) a ≡ false = ground arith in rw (w, w', e) refl
      ]
]

-- `memcpy` copies the n bytes at s2 to s1 as they were before, when the two areas do not overlap,
-- or s1 lies before s2, and changes no other byte.
pub memcpy_lem :
    (m : Memory) (s1 s2 n a : ℕ) → UpSafe s1 s2 n → memcpy m s1 s2 n a ≡ copied m s1 s2 n a
unfolding memcpy
memcpy_lem m s1 s2 zero a h = ground arith
memcpy_lem m s1 s2 (suc n) a h =
    memcpy_lem (update m s1 (m s2)) (s1 + 1) (s2 + 1) n a (UpSafe-step s1 s2 n h)
    ∙ copied-up m s1 s2 n a h

copied-back :
    (m : Memory) (s1 s2 n a : ℕ)
    → s2 ≤ s1
    → copied (update m (s1 + n) (m (s2 + n))) s1 s2 n a ≡ copied m s1 s2 (suc n) a
copied-back m s1 s2 n a h = elim (Bool-cases (a == (s1 + n))) [
  | inl e ↦
      let e' : a ≡ s1 + n = ground arith in
      let w : within s1 n a ≡ false = ground arith in
      let w' : within s1 (suc n) a ≡ true = ground arith in
      let at : s2 + a - s1 ≡ s2 + n = omega arith in rw (w, w', at, e) refl
  | inr e ↦ elim (Bool-cases (within s1 n a)) [
    | inl w ↦
        let w' : within s1 (suc n) a ≡ true = ground arith in
        let far : ((s2 + a - s1) == (s1 + n)) ≡ false = ground arith in rw (w, w', far) refl
    | inr w ↦ let w' : within s1 (suc n) a ≡ false = ground arith in rw (w, w', e) refl
  ]
]

copy_back_lem :
    (m : Memory) (s1 s2 n a p q : ℕ)
    → s2 ≤ s1
    → p ≡ s1 + n - 1
    → q ≡ s2 + n - 1
    → copy_back m p q n a ≡ copied m s1 s2 n a
unfolding copy_back
copy_back_lem m s1 s2 zero a p q h ep eq = ground arith
copy_back_lem m s1 s2 (suc n) a p q h ep eq =
    let ep' : p ≡ s1 + n = omega arith in
    let eq' : q ≡ s2 + n = omega arith in
    rw (ep', eq')
      (copy_back_lem (update m (s1 + n) (m (s2 + n))) s1 s2 n a (s1 + n - 1) (s2 + n - 1) h refl
          refl
        ∙ copied-back m s1 s2 n a h)

-- `memmove` copies the n bytes at s2 to s1 as they were before, however the two areas overlap, and
-- changes no other byte.
pub memmove_lem : (m : Memory) (s1 s2 n a : ℕ) → memmove m s1 s2 n a ≡ copied m s1 s2 n a
unfolding memmove
memmove_lem m s1 s2 n a = elim (Bool-cases (leb s2 s1 && ltb s1 (s2 + n))) [
  | inl e ↦ rw e (copy_back_lem m s1 s2 n a (s1 + n - 1) (s2 + n - 1) (ground arith) refl refl)
  | inr e ↦
      let safe : UpSafe s1 s2 n = elim (Bool-cases (leb s2 s1)) [
        | inl f ↦ inr (ground arith)
        | inr f ↦ inl (ground arith)
      ] in
      rw e (memcpy_lem m s1 s2 n a safe)
]

fill_lem : (m : Memory) (p c n a : ℕ) → fill m p c n a ≡ (if within p n a then c else m a)
unfolding fill
fill_lem m p c zero a = ground arith
fill_lem m p c (suc n) a = fill_lem (update m p c) (p + 1) c n a ∙ ground arith

-- `memset` sets the n bytes at s, and no other byte, to the low byte of c.
pub memset_lem :
    (m : Memory) (s c n a : ℕ) → memset m s c n a ≡ (if within s n a then c % 256 else m a)
unfolding memset
memset_lem m s c n a = fill_lem m s (c % 256) n a
