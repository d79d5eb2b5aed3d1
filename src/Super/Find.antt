-- ===== src/Super/Find.antt =====
-- `super_get` finds the first slot of the table that holds the device.
use brainix_old.Base.{
  ℕ, zero, suc, ◌+◌, ◌≤◌, ◌<◌, ◌≡◌, ◌≢◌, Option, none, some, arith, ◌==◌, Bool-cases, inl, inr,
}
use brainix_old.Super.{Supers, search_from, super_get, super_init, num_supers, no_dev}

-- The first slot from k to before e that holds the device, or none of them does.
abbrev pub Found : Supers → ℕ → ℕ → ℕ → Option ℕ → Type 0
Found s d k e none = (i : ℕ) → k ≤ i → i < e → (s i).dev ≢ d
Found s d k e (some j) =
    (k ≤ j) × (j < e) × ((s j).dev ≡ d) × ((i : ℕ) → k ≤ i → i < j → (s i).dev ≢ d)

Found-later :
    (s : Supers) (d k e : ℕ) (r : Option ℕ)
    → (s k).dev ≢ d
    → Found s d (k + 1) e r
    → Found s d k e r
Found-later s d k e none ne f = λ i lo hi. elim (Bool-cases (i == k)) [
  | inl q ↦ let q' : i ≡ k = ground arith in rw q' ne
  | inr q ↦ f i (ground arith) hi
]
Found-later s d k e (some j) ne f = (
  omega arith,
  f.1,
  f.2,
  λ i lo hi. elim (Bool-cases (i == k)) [
    | inl q ↦ let q' : i ≡ k = ground arith in rw q' ne
    | inr q ↦ f.3 i (ground arith) hi
  ],
)

search_from-Found : (s : Supers) (d k n : ℕ) → Found s d k (k + n) (search_from s d k n)
unfolding search_from
search_from-Found s d k zero = λ i lo hi. absurd (omega arith)
search_from-Found s d k (suc n) = elim (Bool-cases ((s k).dev == d)) [
  | inl e ↦ rw e (omega arith, omega arith, ground arith, λ i lo hi. absurd (omega arith))
  | inr e ↦
      let end : k + 1 + n ≡ k + suc n = omega arith in
      let rest = rw end at (search_from-Found s d (k + 1) n) in
      rw e (Found-later s d k (k + suc n) (search_from s d (k + 1) n) (ground arith) rest)
]

-- `super_get` returns the first slot of the table that holds the device's superblock, and NULL
-- only if no slot does.
pub super_get-Found : (s : Supers) (d : ℕ) → Found s d 0 num_supers (super_get s d)
unfolding super_get
super_get-Found s d = search_from-Found s d 0 num_supers

-- After `super_init` no device is mounted.
pub super_get-super_init : (s : Supers) (d : ℕ) → d ≢ no_dev → super_get (super_init s) d ≡ none
unfolding super_get super_init
super_get-super_init s d ne = ground arith
