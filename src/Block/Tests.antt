-- ===== src/Block/Tests.antt =====
-- A cache whose device returns what was written, and the theorems of the cache on it.
use brainix_old.Base.{
  ◌==◌, ◌&&◌, refl, Bool-cases, inl, inr, ℕ, ◌≡◌, true, false, none, arith, if◌then◌else◌, update,
}
use brainix_old.Super.{Super, super_init, super_get}
use brainix_old.Super.Find.{super_get-super_init}
use brainix_old.Block.{Cache, DevRw, num_blocks, block_init, block_get, dev_sync}
use brainix_old.Block.Cached.{IsCache}
use brainix_old.Block.Store.{IsStore, Contents}
use brainix_old.Block.Flushed.{AllListed, Flushed, dev_sync-Flushed}
use brainix_old.Block.Get.{Outcome, block_get-Outcome}
use brainix_old.Block.Init.{all_counted, count_up, block_init-IsCache}

-- A device: what each byte offset holds, in one number for the 1024 bytes of a block.
abbrev Disk : Type 0
Disk = ℕ → ℕ → ℕ

abbrev disk_holds : Disk → (d off : ℕ) → ℕ
disk_holds disk = disk

abbrev disk_rw : DevRw Disk ℕ
disk_rw disk d read off buffer =
    if read
    then (disk, (disk d off, 1024))
    else (update disk d (update (disk d) off buffer), (buffer, 1024))

abbrev no_super : Super
no_super = record {
  raw = λ a. 0;
  dev = 0;
  block_size = 0;
  frag_size = 0;
  mount_point = none;
  root_dir = none;
  dirty = false;
}

abbrev cold : Cache Disk ℕ
cold = record {
  block = λ k. record { contents = 0; dev = 0; blk = 0; count = 0; dirty = false };
  links = record { next = λ k. 0; prev = λ k. 0 };
  lru = 0;
  supers = λ k. no_super;
  device = λ d off. 7;
  err_code = 0;
}

abbrev start : Cache Disk ℕ
start = block_init cold

start-IsCache : IsCache start (count_up 0 num_blocks)
start-IsCache = block_init-IsCache cold

block_get-Outcome_example :
    Outcome start (count_up 0 num_blocks) 3 4 (block_get disk_rw 100 start 3 4)
block_get-Outcome_example =
    block_get-Outcome disk_rw 100 start (count_up 0 num_blocks) 3 4 start-IsCache

abbrev mounted : ℕ → Super
mounted = update (λ k. no_super) 2 (record no_super { dev = 9 })

super_get-super_init_example : super_get (super_init mounted) 9 ≡ none
super_get-super_init_example = super_get-super_init mounted 9 (λ e. omega arith)

-- Block 4 of device 9 is in the cache, and has been changed.
abbrev changed : Cache Disk ℕ
changed = record start {
  block = update start.block 5 (record { contents = 8; dev = 9; blk = 4; count = 0; dirty = true });
  supers = mounted;
}

disk_rw-IsStore : IsStore disk_rw disk_holds
disk_rw-IsStore = record {
  read_gives = λ s d off b. refl;
  read_keeps = λ s d off b d' off'. refl;
  write_keeps = λ s d off b. refl;
  write_sets = λ s d off b d' off'. elim (Bool-cases (d' == d)) [
    | inl q ↦
        let q' : d' ≡ d = ground arith in
        elim (Bool-cases (off' == off)) [ inl p ↦ rw (q, p) refl | inr p ↦ rw (q, p, q') refl ]
    | inr q ↦ rw q refl
  ];
}

-- What the cache and the disk stand for: 8 in that block, and 7 in all others.
abbrev sevens_and_eight : (d n : ℕ) → ℕ
sevens_and_eight d n = if (d == 9) && (n == 4) then 8 else 7

changed-IsCache : IsCache changed (count_up 0 num_blocks)
unfolding block_init
changed-IsCache = record {
  queue = start-IsCache.queue;
  in_table = start-IsCache.in_table;
  whole = start-IsCache.whole;
  unique = λ j k mj mk ne ed eb.
      let lj = start-IsCache.in_table j mj in
      let lk = start-IsCache.in_table k mk in
      elim (Bool-cases (j == 5)) [
        | inl q ↦ elim (Bool-cases (k == 5)) [
          | inl p ↦ ground arith
          | inr p ↦ absurd (ground arith)
        ]
        | inr q ↦ absurd (ground arith)
      ];
}

changed-Contents : Contents disk_holds changed (count_up 0 num_blocks) sevens_and_eight
unfolding block_init
changed-Contents = record {
  small = λ k i ne. (let lt = start-IsCache.in_table k i in ground arith);
  held = λ k i ne. (let lt = start-IsCache.in_table k i in ground arith);
  clean = λ k i ne e. (let lt = start-IsCache.in_table k i in ground arith);
  absent = λ d n ne lt gone. elim (Bool-cases ((d == 9) && (n == 4))) [
    | inl q ↦
        let nine : 9 ≡ d = ground arith in
        let four : 4 ≡ n = ground arith in absurd (gone 5 refl (nine, four))
    | inr q ↦ rw q refl
  ];
}

all_listed :
    AllListed disk_holds disk_rw 100 disk_rw-IsStore (count_up 0 num_blocks) sevens_and_eight 9
all_listed k lt = all_counted k 0 num_blocks (omega arith) lt

dev_sync-Flushed_example :
    Flushed disk_holds disk_rw 100 disk_rw-IsStore
      (count_up 0 num_blocks)
      sevens_and_eight
      9
      changed
      (dev_sync disk_rw 100 changed 9)
dev_sync-Flushed_example =
    dev_sync-Flushed disk_holds disk_rw 100 disk_rw-IsStore (count_up 0 num_blocks) sevens_and_eight
      9 changed (λ e. omega arith) all_listed changed-IsCache changed-Contents
