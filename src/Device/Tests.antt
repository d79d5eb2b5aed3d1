-- ===== src/Device/Tests.antt =====
-- The inode of a floppy drive, a block device with major number 2.
use brainix_old.Base.{refl, true, false, ◌==◌, if◌then◌else◌}
use brainix_old.Inode.{Inode, is_blk, is_chr}
use brainix_old.Device.{maj_min_to_dev}
use brainix_old.Device.Driver.{IsDevice}

-- The mode is 0x6000, and the first block number 0x0203.
abbrev floppy : Inode
floppy = record {
  raw = λ a. if a == 1 then 96 else if a == 40 then 3 else if a == 41 then 2 else 0;
  dev = 9;
  ino = 5;
  count = 1;
  mounted = false;
  dirty = false;
}

floppy-IsDevice : IsDevice floppy true 2 3
unfolding is_blk is_chr maj_min_to_dev
floppy-IsDevice = (refl, refl, refl)
