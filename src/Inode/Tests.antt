-- ===== src/Inode/Tests.antt =====
-- An inode table with inode 2 of device 9 in slot 0, and the theorems on it.
use brainix_old.Base.{ℕ, ◌≡◌, refl, false, none, some, ◌==◌, arith, if◌then◌else◌, Whenever}
use brainix_old.Super.{super_get}
use brainix_old.Block.{Cache, DevRw, block_init}
use brainix_old.Inode.{Fs, Bytes, inode_get, block_find, i_block}
use brainix_old.Base.{List, [], ◌∷◌, ◌≢◌, update, Bool-cases, inl, inr}
use brainix_old.Block.Store.{IsStore}
use brainix_old.Inode.Ready.{Ready, SameDevs}
use brainix_old.Inode.Accesses.{
  Access, AllMounted, accesses, plain, accesses-plain, block_init-Stores,
}
use brainix_old.Inode.Blocks.{Stores}
use brainix_old.Inode.Table.{Gotten, Unique, inode_get_lem, inode_get-Unique}
use brainix_old.Inode.Find.{through, way, block_find_lem}

-- A device that only holds sevens.
abbrev pub sevens : DevRw ℕ Bytes
sevens dev d read off buffer = (dev, (if read then (λ k. 7) else buffer, 1024))

abbrev pub cache : Cache ℕ Bytes
cache =
    record (block_init (record {
      block = λ k. record { contents = λ a. 0; dev = 0; blk = 0; count = 0; dirty = false };
      links = record { next = λ k. 0; prev = λ k. 0 };
      lru = 0;
      supers = λ k. record {
        raw = λ a. 0;
        dev = 0;
        block_size = 0;
        frag_size = 0;
        mount_point = none;
        root_dir = none;
        dirty = false;
      };
      device = 0;
      err_code = 0;
    })) {
      supers = λ k. record {
        raw = λ a. if a == 40 then 100 else if a == 88 then 128 else 0;
        dev = 9;
        block_size = 1024;
        frag_size = 1024;
        mount_point = none;
        root_dir = none;
        dirty = false;
      };
    }

abbrev pub fs : Fs ℕ
fs = record {
  inode = λ k. record {
    raw = λ a. k;
    dev = (if k == 0 then 9 else 0);
    ino = (if k == 0 then 2 else 0);
    count = (if k == 0 then 1 else 0);
    mounted = false;
    dirty = false;
  };
  cache = cache;
}

super_9 : super_get cache.supers 9 ≡ some 0
unfolding super_get
super_9 = refl

fs-Unique : Unique fs
fs-Unique i j hi hj ne ed ei = ground arith

inode_get_lem_example : Gotten sevens 100 fs 9 2 (inode_get sevens 100 fs 9 2)
inode_get_lem_example = inode_get_lem sevens 100 fs 9 2

inode_get-Unique_example : Whenever (λ r. Unique r.1) (inode_get sevens 100 fs 9 3)
inode_get-Unique_example = inode_get-Unique sevens 100 fs 9 3 fs-Unique

block_find_lem_example :
    block_find sevens 100 2 fs 0 300
    ≡ through sevens 100 cache 9 (i_block (fs.inode 0) (way 300).0) (way 300).1
block_find_lem_example = block_find_lem sevens 100 fs 0 0 super_9 refl 0 300 (omega arith)

-- A device that keeps what is written.
abbrev pub Disk : Type 0
Disk = ℕ → ℕ → Bytes

abbrev pub disk_rw : DevRw Disk Bytes
disk_rw disk d read off buffer =
    if read
    then (disk, (disk d off, 1024))
    else (update disk d (update (disk d) off buffer), (buffer, 1024))

abbrev pub look : Disk → (d off : ℕ) → Bytes
look disk = disk

pub disk_rw-IsStore : IsStore disk_rw look
disk_rw-IsStore = record {
  read_gives = λ s d off b. refl;
  read_keeps = λ s d off b d' off'. refl;
  write_keeps = λ s d off b. refl;
  write_sets = λ s d off b d' off'. elim (Bool-cases (d' == d)) [
    | inl q ↦
        let q' : d' ≡ d = ground arith in
        elim (Bool-cases (off' == off)) [ inl p ↦ rw (q, p) refl | inr p ↦ rw (q, p, q') refl ]
    | inr q ↦ rw q refl
  ];
}

-- All bytes of a device are its number, and nothing is cached.
abbrev pub unset : Cache Disk Bytes
unset = record {
  block = λ k. record { contents = λ a. 0; dev = 0; blk = 0; count = 0; dirty = false };
  links = record { next = λ k. 0; prev = λ k. 0 };
  lru = 0;
  supers = cache.supers;
  device = λ d off a. d;
  err_code = 0;
}

abbrev cold : Cache Disk Bytes
cold = block_init unset

cold-Ready : Ready cold
unfolding block_init
cold-Ready k lt = (ground arith, λ e. absurd (ground arith))

-- Block 3 of device 9 is zeroed, block 4 read, and block 3 read again.
abbrev three : List Access
three =
    record { dev = 9; blk = 3; edit = some (λ b a. 0) }
    ∷ record { dev = 9; blk = 4; edit = none }
    ∷ record { dev = 9; blk = 3; edit = none }
    ∷ []

abbrev held : (d n : ℕ) → Bytes
held d n a = d

three-AllMounted : AllMounted cold three
unfolding block_init
three-AllMounted =
    (nine, mounted, omega arith, (nine, mounted, omega arith, (nine, mounted, omega arith, tt)))
  where
    nine : (let n : ℕ = 9 in n) ≢ 0
    nine e = omega arith

    mounted : super_get cold.supers 9 ≢ none
    mounted e = let found = super_9 in absurd (ground arith)

accesses-plain_example :
    (t : List Bytes × Cache Disk Bytes) × (accesses look disk_rw 100 disk_rw-IsStore three cold
      ≡ some t)
    × (t.0 ≡ (plain look disk_rw 100 disk_rw-IsStore three held).0)
    × Stores look disk_rw 100 disk_rw-IsStore
        (plain look disk_rw 100 disk_rw-IsStore three held).1
        t.1
    × Ready t.1
    × SameDevs cold t.1
accesses-plain_example =
    accesses-plain look disk_rw 100 disk_rw-IsStore three cold held
      (block_init-Stores look disk_rw 100 disk_rw-IsStore unset) cold-Ready three-AllMounted
