-- ===== src/Base/Tests.antt =====
-- Boolean tests on native numbers, the conditional, and functions changed at one argument.
use Prim.Native.Nat.{ℕ, compare, Ordering}
use mathlib.Core.Path.{◌≡◌, refl}
use mathlib.Core.Logic.{◌↔◌, ◌⊎◌, inl, inr}
use mathlib.Core.Bool.{Bool, true, false}
use mathlib.Core.Option.{Option, none, some}
use native.Mathlib.Omega.{arith}

abbrev pub ltb : ℕ → ℕ → Bool
ltb a b = elim (compare a b) [ Ordering.lt ↦ true | _ ↦ false ]

abbrev pub leb : ℕ → ℕ → Bool
leb a b = elim (compare a b) [ Ordering.gt ↦ false | _ ↦ true ]

infix 50 ◌==◌
abbrev pub ◌==◌ : ℕ → ℕ → Bool
a == b = elim (compare a b) [ Ordering.eq ↦ true | _ ↦ false ]

infix 1 if◌then◌else◌
abbrev pub if◌then◌else◌ {ℓ} : {A : Type ℓ} → Bool → A → A → A
if true then x else y = x
if false then x else y = y

pub ==_iff : (a b : ℕ) → ((a == b) ≡ true) ↔ (a ≡ b)
==_iff a b = ground arith

pub Bool-cases : (b : Bool) → (b ≡ true) ⊎ (b ≡ false)
Bool-cases true = inl refl
Bool-cases false = inr refl

pub Option-cases {ℓ} : {A : Type ℓ} (o : Option A) → (o ≡ none) ⊎ ((a : A) × (o ≡ some a))
Option-cases none = inl refl
Option-cases (some a) = inr (a, refl)

-- A table as a function, written at one index.
abbrev pub update {ℓ} : {A : Type ℓ} → (ℕ → A) → ℕ → A → ℕ → A
update f k v j = if j == k then v else f j

infixl 5 ◌>>=◌
abbrev pub ◌>>=◌ {ℓ κ} : {A : Type ℓ} {B : Type κ} → Option A → (A → Option B) → Option B
none >>= f = none
some a >>= f = f a

-- What holds of the result, if there is one.
abbrev pub Whenever {ℓ κ} : {A : Type ℓ} → (A → Type κ) → Option A → Type κ
Whenever P none = Unit
Whenever P (some a) = P a

pub >>=-Whenever {ℓ κ λ'} :
    {A : Type ℓ} {B : Type κ} (P : B → Type λ') (m : Option A) (f : A → Option B)
    → ((a : A) → Whenever P (f a))
    → Whenever P (m >>= f)
>>=-Whenever P none f h = tt
>>=-Whenever P (some a) f h = h a

-- What holds of the first result leads to what holds of the last.
pub Whenever-bind {ℓ κ λ' μ} :
    {A : Type ℓ} {B : Type κ} (Q : A → Type μ) (P : B → Type λ') (m : Option A) (f : A → Option B)
    → Whenever Q m
    → ((a : A) → Q a → Whenever P (f a))
    → Whenever P (m >>= f)
Whenever-bind Q P none f q h = tt
Whenever-bind Q P (some a) f q h = h a q

pub Whenever-if {ℓ κ} :
    {A : Type ℓ} (P : A → Type κ) (b : Bool) (x y : Option A)
    → Whenever P x
    → Whenever P y
    → Whenever P (if b then x else y)
Whenever-if P true x y h k = h
Whenever-if P false x y h k = k

pub Whenever-mono {ℓ κ μ} :
    {A : Type ℓ} (Q : A → Type μ) (P : A → Type κ) (m : Option A)
    → Whenever Q m
    → ((a : A) → Q a → P a)
    → Whenever P m
Whenever-mono Q P none q h = tt
Whenever-mono Q P (some a) q h = h a q
