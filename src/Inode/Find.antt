-- ===== src/Inode/Find.antt =====
-- Finding a block of a file: block_find of src/fs/inode.c, for blocks of 1024 bytes, the size that
-- the cache holds.
use native.Mathlib.Nat.{div-one}
use brainix_old.Base.{
  ℕ, suc, ◌+◌, ◌-◌, ◌*◌, ◌/◌, ◌%◌, ◌≤◌, ◌<◌, ◌≡◌, refl, true, false, Option, none, some, List, [],
  ◌∷◌, ltb, leb, arith, if◌then◌else◌, ◌>>=◌, Bool-cases, Option-cases, inl, inr,
}
use brainix_old.Super.{super_get}
use brainix_old.Block.{Cache, DevRw}
use brainix_old.Inode.{
  Fs, Bytes, word, with_block, block_find, raise, descend, indirect_block, i_block, within,
}

-- Which block number of the inode is the first on the way, and the entries that are read in the
-- blocks on the way. Two levels down, the first entry is one behind the one for the n-th block.
abbrev pub way : ℕ → ℕ × List ℕ
way n =
    if ltb n 12
    then (n, [])
    else if ltb n 268
    then (12, (n - 12) ∷ [])
    else (13, ((n - 268) / 256 + 1) ∷ ((n - 268) % 256) ∷ [])

raise_one : (fuel m : ℕ) → m < 256 → raise (suc fuel) 256 m 1 ≡ some 1
unfolding raise
raise_one fuel m h = let stop : leb 256 m ≡ false = ground arith in rw stop refl

raise_two : (fuel m : ℕ) → 256 ≤ m → m < 65536 → raise (suc (suc fuel)) 256 m 1 ≡ some 256
unfolding raise
raise_two fuel m h h' =
    let on : leb 256 m ≡ true = ground arith in
    let stop : leb 65536 m ≡ false = ground arith in rw (on, stop) refl

module _ {Dev : Type 0} (dev_rw : DevRw Dev Bytes) (now : ℕ) where
  -- Following block numbers from block to block.
  abbrev pub through : Cache Dev Bytes → (d blk : ℕ) → List ℕ → Option (ℕ × Cache Dev Bytes)
  through c d blk [] = some (blk, c)
  through c d blk (entry ∷ entries) = do
    block ← with_block dev_rw now c d blk none
    through block.1 d (word block.0 (4 * entry)) entries

  descend_one :
      (fuel : ℕ) (c : Cache Dev Bytes) (d blk m : ℕ)
      → m < 256
      → descend dev_rw now (suc fuel) c d blk 256 m 1 ≡ through c d blk (m ∷ [])
  unfolding descend
  descend_one fuel c d blk m h = elim (Option-cases (with_block dev_rw now c d blk none)) [
    | inl e ↦ rw e refl
    | inr (b, e) ↦ let small : ltb m 256 ≡ true = ground arith in rw (e, small, div-one m) refl
  ]

  descend_two :
      (fuel : ℕ) (c : Cache Dev Bytes) (d blk m : ℕ)
      → 256 ≤ m
      → m < 65536
      → descend dev_rw now (suc (suc fuel)) c d blk 256 m 256
        ≡ through c d blk (m / 256 ∷ (m % 256) ∷ [])
  unfolding descend
  descend_two fuel c d blk m h h' = elim (Option-cases (with_block dev_rw now c d blk none)) [
    | inl e ↦ rw e refl
    | inr (b, e) ↦
        let large : ltb m 256 ≡ false = ground arith in
        rw (e, large) (descend_one fuel b.1 d (word b.0 (4 * (m / 256))) (m % 256) (omega arith))
  ]

  module _ (s : Fs Dev) (k sp : ℕ) (known : super_get s.cache.supers (s.inode k).dev ≡ some sp)
      (size : (s.cache.supers sp).block_size ≡ 1024) where
    first_level :
        (n : ℕ) → 12 ≤ n → n < 268 → indirect_block (s.inode k) 256 n ≡ i_block (s.inode k) 12
    first_level n h h' =
        let a : within 65804 16777216 n ≡ false = ground arith in
        let b : within 268 65536 n ≡ false = ground arith in
        let c : within 12 256 n ≡ true = ground arith in rw (a, b, c) refl

    second_level :
        (n : ℕ) → 268 ≤ n → n < 65548 → indirect_block (s.inode k) 256 n ≡ i_block (s.inode k) 13
    second_level n h h' =
        let a : within 65804 16777216 n ≡ false = ground arith in
        let b : within 268 65536 n ≡ true = ground arith in rw (a, b) refl

    -- The n-th block of a file with n < 65548, on a mounted device with blocks of 1024 bytes: from
    -- the block number in the inode, `block_find` reads the entries on the way in one block after
    -- the other, none for n < 12, one for n < 268, and two from there on. Two levels down it leaves the first entry out: it reads the entry behind the one
    -- for the n-th block.
    pub block_find_lem :
        (fuel n : ℕ)
        → n < 65548
        → block_find dev_rw now (suc (suc fuel)) s k n
          ≡ through s.cache (s.inode k).dev (i_block (s.inode k) (way n).0) (way n).1
    unfolding block_find
    block_find_lem fuel n h = elim (Bool-cases (ltb n 12)) [
      | inl a ↦ rw (known, size, a) refl
      | inr a ↦ elim (Bool-cases (ltb n 268)) [
        | inl b ↦
            let below : n - 12 < 256 = ground arith in
            rw
              (
                known,
                size,
                a,
                b,
                raise_one (suc fuel) (n - 12) below,
                first_level n (ground arith) (ground arith),
              )
              (descend_one (suc fuel) s.cache (s.inode k).dev (i_block (s.inode k) 12) (n - 12)
                below)
        | inr b ↦
            let low : 256 ≤ n - 12 = ground arith in
            let high : n - 12 < 65536 = ground arith in
            let q : (n - 268) / 256 + 1 ≡ (n - 12) / 256 = omega (arith, low) in
            let r : (n - 268) % 256 ≡ (n - 12) % 256 = omega (arith, low) in
            rw
              (
                known,
                size,
                a,
                b,
                q,
                r,
                raise_two fuel (n - 12) low high,
                second_level n (ground arith) h,
              )
              (descend_two fuel s.cache (s.inode k).dev (i_block (s.inode k) 13) (n - 12) low high)
      ]
    ]
