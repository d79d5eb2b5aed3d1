-- ===== src/Clock/Bcd.antt =====
-- Binary coded decimal numbers.
use brainix_old.Base.{ℕ, ◌<◌, ◌≡◌, arith}
use brainix_old.Clock.{bcd_to_bin, bin_to_bcd}

-- A number below 100 that is converted to binary coded decimal and back is what it was.
pub bcd_to_bin-bin_to_bcd : (n : ℕ) → n < 100 → bcd_to_bin (bin_to_bcd n) ≡ n
unfolding bcd_to_bin bin_to_bcd
bcd_to_bin-bin_to_bcd n h = omega arith
