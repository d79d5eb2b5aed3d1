-- ===== src/Base/Lists.antt =====
-- Lists measured and indexed by native numbers, under the library's names, and membership as a
-- test.
use Prim.Native.Nat.{ℕ, zero, suc, ◌+◌}
use mathlib.Core.Path.{◌≡◌, refl}
use mathlib.Core.Logic.{◌≢◌}
use mathlib.Core.Bool.{Bool, false, ◌||◌}
use mathlib.Core.List.{List, [], ◌∷◌, ◌++◌}
use mathlib.Core.Option.{Option, none, some}
use native.Mathlib.Omega.{arith}
use brainix_old.Base.Tests.{◌==◌, if◌then◌else◌}

module _ {ℓ} {A : Type ℓ} where
  abbrev pub length : List A → ℕ
  length [] = 0
  length (x ∷ xs) = suc (length xs)

  abbrev pub get_elem? : List A → ℕ → Option A
  get_elem? [] i = none
  get_elem? (x ∷ xs) zero = some x
  get_elem? (x ∷ xs) (suc i) = get_elem? xs i

  pub length-append : (xs ys : List A) → length (xs ++ ys) ≡ length xs + length ys
  length-append [] ys = omega arith
  length-append (x ∷ xs) ys = omega (arith, length-append xs ys)

abbrev pub mem : ℕ → List ℕ → Bool
mem a [] = false
mem a (x ∷ xs) = (a == x) || mem a xs

-- No number stands in the list twice.
abbrev pub Distinct : List ℕ → Type 0
Distinct [] = Unit {0}
Distinct (x ∷ xs) = (mem x xs ≡ false) × Distinct xs

-- Drops the first occurrence.
abbrev pub erase : ℕ → List ℕ → List ℕ
erase a [] = []
erase a (x ∷ xs) = if a == x then xs else x ∷ erase a xs

pub mem-append : (a : ℕ) (xs ys : List ℕ) → mem a (xs ++ ys) ≡ (mem a xs || mem a ys)
mem-append a [] ys = refl
mem-append a (x ∷ xs) ys = ground (arith, mem-append a xs ys)

pub mem-erase : (b a : ℕ) (xs : List ℕ) → mem b xs ≡ false → mem b (erase a xs) ≡ false
mem-erase b a [] h = refl
mem-erase b a (x ∷ xs) h = ground (arith, mem-erase b a xs)

pub mem-erase_ne : (b a : ℕ) (xs : List ℕ) → b ≢ a → mem b (erase a xs) ≡ mem b xs
mem-erase_ne b a [] h = refl
mem-erase_ne b a (x ∷ xs) h = ground (arith, mem-erase_ne b a xs h)

pub mem-erase_self : (a : ℕ) (xs : List ℕ) → Distinct xs → mem a (erase a xs) ≡ false
mem-erase_self a [] d = refl
mem-erase_self a (x ∷ xs) d = ground (arith, mem-erase_self a xs d.1)

pub Distinct-erase : (a : ℕ) (xs : List ℕ) → Distinct xs → Distinct (erase a xs)
Distinct-erase a [] d = tt
Distinct-erase a (x ∷ xs) d = ground (arith, Distinct-erase a xs d.1, mem-erase x a xs)

pub Distinct-append_one :
    (a : ℕ) (xs : List ℕ) → Distinct xs → mem a xs ≡ false → Distinct (xs ++ (a ∷ []))
Distinct-append_one a [] d h = (refl, tt)
Distinct-append_one a (x ∷ xs) d h =
    ground (arith, Distinct-append_one a xs d.1, mem-append x xs (a ∷ []))

pub erase_not_mem : (a : ℕ) (xs : List ℕ) → mem a xs ≡ false → erase a xs ≡ xs
erase_not_mem a [] h = refl
erase_not_mem a (x ∷ xs) h = ground (arith, erase_not_mem a xs)
