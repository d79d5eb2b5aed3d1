-- ===== src/Base/Bits.antt =====
-- Exclusive or at variables: its law for the lowest digit, and cancelling.
use Prim.Native.Nat.{bit_xor, bit_xor-bitwise, bit_or, bit_or-bitwise, digits, differ, max}
use brainix_old.Base.{ℕ, zero, suc, ◌+◌, ◌*◌, ◌/◌, ◌%◌, ◌≤◌, ◌<◌, ◌≡◌, ◌↔◌, refl, arith}

differ_bits : (x y : ℕ) → x < 2 → y < 2 → differ x y ≡ (x + y) % 2
differ_bits zero y p q = omega arith
differ_bits (suc zero) zero p q = refl
differ_bits (suc zero) (suc zero) p q = refl
differ_bits (suc zero) (suc (suc y)) p q = absurd (omega arith)
differ_bits (suc (suc x)) y p q = absurd (omega arith)

-- The count of digits to go plays no part when it is large enough.
module _ (f : ℕ → ℕ → ℕ) where
  abbrev joined : ℕ → ℕ → ℕ → ℕ
  joined n a b = digits (λ y. y) f n a b

  joined_fuel : (n m a b : ℕ) → a ≤ n → a ≤ m → joined n a b ≡ joined m a b
  joined_fuel zero zero a b p q = refl
  joined_fuel zero (suc m) zero b p q = refl
  joined_fuel zero (suc m) (suc a) b p q = absurd (omega arith)
  joined_fuel (suc n) zero zero b p q = refl
  joined_fuel (suc n) zero (suc a) b p q = absurd (omega arith)
  joined_fuel (suc n) (suc m) zero b p q = refl
  joined_fuel (suc n) (suc m) (suc a) b p q =
      omega (arith, joined_fuel n m (suc a / 2) (b / 2) (omega arith) (omega arith))

-- The law for the lowest digit.
pub xor_step : (a b : ℕ) → bit_xor a b ≡ bit_xor (a / 2) (b / 2) * 2 + (a + b) % 2
xor_step zero b = omega (arith, bit_xor-bitwise 0 b, bit_xor-bitwise 0 (b / 2))
xor_step (suc a) b = omega (
  arith,
  bit_xor-bitwise (suc a) b,
  bit_xor-bitwise (suc a / 2) (b / 2),
  joined_fuel differ a (suc a / 2) (suc a / 2) (b / 2) (omega arith) (omega arith),
  differ_bits (suc a % 2) (b % 2) (omega arith) (omega arith),
)

xor_comm_fuel : (n a b : ℕ) → a ≤ n → b ≤ n → bit_xor a b ≡ bit_xor b a
xor_comm_fuel zero zero zero p q = refl
xor_comm_fuel zero zero (suc b) p q = absurd (omega arith)
xor_comm_fuel zero (suc a) b p q = absurd (omega arith)
xor_comm_fuel (suc n) a b p q =
    omega (
      arith,
      xor_step a b,
      xor_step b a,
      xor_comm_fuel n (a / 2) (b / 2) (omega arith) (omega arith),
    )

pub xor_comm : (a b : ℕ) → bit_xor a b ≡ bit_xor b a
xor_comm a b = xor_comm_fuel (a + b) a b (omega arith) (omega arith)

xor_cancel_fuel : (n a b : ℕ) → a ≤ n → b ≤ n → bit_xor (bit_xor a b) b ≡ a
xor_cancel_fuel zero zero zero p q = refl
xor_cancel_fuel zero zero (suc b) p q = absurd (omega arith)
xor_cancel_fuel zero (suc a) b p q = absurd (omega arith)
xor_cancel_fuel (suc n) a b p q =
    let high : bit_xor a b / 2 ≡ bit_xor (a / 2) (b / 2) = omega (arith, xor_step a b) in
    let rest = xor_cancel_fuel n (a / 2) (b / 2) (omega arith) (omega arith) in
    let rest' = rw (← high) at rest in omega (arith, xor_step (bit_xor a b) b, xor_step a b, rest')

pub xor_cancel : (a b : ℕ) → bit_xor (bit_xor a b) b ≡ a
xor_cancel a b = xor_cancel_fuel (a + b) a b (omega arith) (omega arith)

max-zero : (y : ℕ) → max zero y ≡ y
max-zero y = omega arith

-- The law of the disjunction for the lowest digit.
pub or_step : (a b : ℕ) → bit_or a b ≡ bit_or (a / 2) (b / 2) * 2 + max (a % 2) (b % 2)
or_step zero b = omega (arith, bit_or-bitwise 0 b, bit_or-bitwise 0 (b / 2), max-zero (b % 2))
or_step (suc a) b = omega (
  arith,
  bit_or-bitwise (suc a) b,
  bit_or-bitwise (suc a / 2) (b / 2),
  joined_fuel max a (suc a / 2) (suc a / 2) (b / 2) (omega arith) (omega arith),
)

-- A disjunction gives its second part again exactly if the lowest digit of the first part is in the
-- second, and so for the other digits.
pub or_within : (a b : ℕ) → (bit_or a b ≡ b) ↔ ((a % 2 ≤ b % 2) × (bit_or (a / 2) (b / 2) ≡ b / 2))
or_within a b = (
  λ e. (omega (arith, or_step a b, e), omega (arith, or_step a b, e)),
  λ h. omega (arith, or_step a b, h.0, h.1),
)

pub or_zero : (b : ℕ) → bit_or 0 b ≡ b
or_zero b = omega (arith, bit_or-bitwise 0 b)
