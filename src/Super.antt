-- ===== src/Super.antt =====
-- The superblock table: `super_init` and `super_get` of src/fs/super.c, with the fields of
-- inc/fs/super.h that the file system reads or writes. A `super_t *` is an index into the table.
pub mod Find
use brainix_old.Base.Bytes.{Bytes, half, word}
use brainix_old.Base.{ℕ, zero, suc, ◌+◌, Bool, false, Option, none, some, ltb, ◌==◌, if◌then◌else◌}

abbrev pub num_supers : ℕ
num_supers = 8

abbrev pub no_dev : ℕ
no_dev = 0

-- `raw` is the part that resides on the device, as its 204 bytes.
pub record Super : Type 0 where
  pub raw : Bytes
  pub dev : ℕ
  pub block_size : ℕ
  pub frag_size : ℕ
  pub mount_point : Option ℕ
  pub root_dir : Option ℕ
  pub dirty : Bool

abbrev pub s_inodes_per_group : Super → ℕ
s_inodes_per_group s = word s.raw 40

abbrev pub s_inode_size : Super → ℕ
s_inode_size s = half s.raw 88

abbrev pub Supers : Type 0
Supers = ℕ → Super

unfoldable pub super_init : Supers → Supers
super_init s k =
    if ltb k num_supers
    then record (s k) {
      dev = no_dev;
      block_size = 0;
      frag_size = 0;
      mount_point = none;
      root_dir = none;
      dirty = false;
    }
    else s k

-- The loop of `super_get`, from slot k on, n slots before the end.
unfoldable pub search_from : Supers → ℕ → ℕ → ℕ → Option ℕ
search_from s d k zero = none
search_from s d k (suc n) = if (s k).dev == d then some k else search_from s d (k + 1) n

unfoldable pub super_get : Supers → ℕ → Option ℕ
unfolding search_from
super_get s d = search_from s d 0 num_supers
