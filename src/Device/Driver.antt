-- ===== src/Device/Driver.antt =====
-- Finding the driver of a device: src/fs/device.c.
use brainix_old.Base.{ℕ, ◌<◌, ◌≡◌, refl, Bool, true, false, ◌&&◌, some, ◌==◌, arith, if◌then◌else◌}
use brainix_old.Inode.{Inode, i_block, is_blk, is_chr}
use brainix_old.Device.{
  cell, num_drivers, dev_to_maj_min, maj_min_to_dev, fs_register, inode_to_dev, inode_to_pid,
}

-- Whether an inode is a device of the given kind whose first block number is the device number.
abbrev pub IsDevice : Inode → (block : Bool) → (maj min : ℕ) → Type 0
IsDevice i block maj min =
    (is_blk (some i) ≡ block)
    × (is_chr (some i) ≡ (if block then false else true))
    × (i_block i 0 ≡ maj_min_to_dev maj min)

-- The kinds of device agree.
abbrev pub same : Bool → Bool → Bool
same true b = b
same false b = if b then false else true

cell_iff :
    (b b' : Bool) (maj maj' : ℕ)
    → maj < num_drivers
    → maj' < num_drivers
    → (cell b' maj' == cell b maj) ≡ (same b b' && (maj == maj'))
cell_iff true true maj maj' h h' = ground arith
cell_iff true false maj maj' h h' = ground arith
cell_iff false true maj maj' h h' = ground arith
cell_iff false false maj maj' h h' = ground arith

number :
    (maj min : ℕ)
    → maj < num_drivers
    → min < 256
    → (dev_to_maj_min (maj_min_to_dev maj min)).0 ≡ maj
unfolding dev_to_maj_min maj_min_to_dev
number maj min h m = omega arith

inode_to_pid-cell :
    (t : ℕ → ℕ) (b : Bool) (maj min : ℕ) (i : Inode)
    → maj < num_drivers
    → min < 256
    → IsDevice i b maj min
    → inode_to_pid t (some i) ≡ t (cell b maj)
unfolding inode_to_pid inode_to_dev
inode_to_pid-cell t true maj min i h m d = rw (d.0, d.2, number maj min h m) refl
inode_to_pid-cell t false maj min i h m d = rw (d.0, d.1, d.2, number maj min h m) refl

-- Registering a driver under a major number makes it the driver of exactly the devices of its kind
-- and major number: an inode of such a device leads to the driver's process, and an inode of any
-- other device to the process that it led to before.
pub inode_to_pid_lem :
    (driver_pid : ℕ → ℕ) (block block' : Bool) (maj maj' min pid : ℕ) (i : Inode)
    → maj < num_drivers
    → maj' < num_drivers
    → min < 256
    → IsDevice i block' maj' min
    → inode_to_pid (fs_register driver_pid block maj pid) (some i)
      ≡ (if same block block' && (maj == maj') then pid else inode_to_pid driver_pid (some i))
inode_to_pid_lem driver_pid block block' maj maj' min pid i h h' m d =
    rw
      (
        inode_to_pid-cell (fs_register driver_pid block maj pid) block' maj' min i h' m d,
        inode_to_pid-cell driver_pid block' maj' min i h' m d,
      )
      (registered (cell_iff block block' maj maj' h h'))
  where
    registered :
        (cell block' maj' == cell block maj) ≡ (same block block' && (maj == maj'))
        → fs_register driver_pid block maj pid (cell block' maj')
          ≡ (if same block block' && (maj == maj') then pid else driver_pid (cell block' maj'))
    registered e = unfold fs_register in rw e refl
