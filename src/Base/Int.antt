-- ===== src/Base/Int.antt =====
-- Signed integers over the native numbers, as far as the program needs them: a `pid_t` that may
-- stand for a group or for no process, and results that may be negative error numbers.
use brainix_old.Base.{ℕ, Bool, false, ◌==◌}

-- `negsuc n` is -(n + 1).
pub data ℤ : Type 0 where
  pos : ℕ → ℤ
  negsuc : ℕ → ℤ

abbrev pub eq_ℤ : ℤ → ℤ → Bool
eq_ℤ (pos a) (pos b) = a == b
eq_ℤ (pos a) (negsuc b) = false
eq_ℤ (negsuc a) (pos b) = false
eq_ℤ (negsuc a) (negsuc b) = a == b
