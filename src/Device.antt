-- ===== src/Device.antt =====
-- Device numbers and the table of drivers: src/fs/device.c, less the messages to the drivers and
-- the mounting of the root file system in fs_register. `driver_pid[2][NUM_DRIVERS]` is one row of
-- cells, the character devices first; a device or a process ID is its 32-bit word.
pub mod Driver
mod Tests
use brainix_old.Base.{
  ℕ, ◌+◌, ◌-◌, ◌*◌, ◌/◌, ◌%◌, ◌^◌, Bool, true, false, ◌||◌, Option, none, some, ltb, ◌==◌,
  if◌then◌else◌, update,
}
use brainix_old.Super.{no_dev}
use brainix_old.Inode.{Inode, i_block, is_blk, is_chr}

abbrev pub num_drivers : ℕ
num_drivers = 8

-- -1
abbrev pub no_pid : ℕ
no_pid = 2 ^ 32 - 1

-- The major and the minor number.
unfoldable pub dev_to_maj_min : ℕ → ℕ × ℕ
dev_to_maj_min dev = (dev / 256 % 256, dev % 256)

-- The two parts of the disjunction share no bit.
unfoldable pub maj_min_to_dev : (maj min : ℕ) → ℕ
maj_min_to_dev maj min = maj % 256 * 256 + min % 256

abbrev pub cell : (block : Bool) → (maj : ℕ) → ℕ
cell block maj = (if block then num_drivers else 0) + maj

unfoldable pub dev_init : (ℕ → ℕ) → ℕ → ℕ
dev_init driver_pid k = if ltb k (2 * num_drivers) then no_pid else driver_pid k

-- The first line of `fs_register`.
unfoldable pub fs_register : (driver_pid : ℕ → ℕ) → (block : Bool) → (maj pid : ℕ) → ℕ → ℕ
fs_register driver_pid block maj pid = update driver_pid (cell block maj) pid

unfoldable pub inode_to_dev : Option Inode → ℕ
inode_to_dev none = no_dev
inode_to_dev (some i) = if is_blk (some i) || is_chr (some i) then i_block i 0 else no_dev

unfoldable pub inode_to_pid : (driver_pid : ℕ → ℕ) → Option Inode → ℕ
inode_to_pid driver_pid i =
    if is_blk i || is_chr i
    then driver_pid (cell (is_blk i) (dev_to_maj_min (inode_to_dev i)).0)
    else no_pid
