-- ===== src/Base/Bytes.antt =====
-- Numbers in bytes: little-endian fields of 16 and 32 bits, and copying.
use brainix_old.Base.Tests.{ltb, leb, ◌==◌, if◌then◌else◌}
use Prim.Native.Nat.{ℕ, ◌+◌, ◌-◌, ◌*◌, ◌/◌, ◌%◌, ◌^◌}
use mathlib.Core.Bool.{◌&&◌}

abbrev pub Bytes : Type 0
Bytes = ℕ → ℕ

abbrev pub half : Bytes → ℕ → ℕ
half b a = b a + 256 * b (a + 1)

abbrev pub word : Bytes → ℕ → ℕ
word b a = half b a + 65536 * half b (a + 2)

abbrev pub set_half : Bytes → ℕ → ℕ → Bytes
set_half b a v k = if k == a then v % 256 else if k == a + 1 then v / 256 % 256 else b k

abbrev pub set_word : Bytes → ℕ → ℕ → Bytes
set_word b a v k = if leb a k && ltb k (a + 4) then v / 256 ^ (k - a) % 256 else b k

-- memcpy() of n bytes at `origin` to the place `at`.
abbrev pub copied : (to from : Bytes) (at origin n : ℕ) → Bytes
copied to from at origin n k = if leb at k && ltb k (at + n) then from (origin + (k - at)) else to k
