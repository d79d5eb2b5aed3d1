-- ===== src/Inode/Disk.antt =====
-- Where inodes reside on their device, and what writing one does to its block: group_find of
-- src/fs/group.c and inode_rw of src/fs/inode.c.
use native.Mathlib.Nat.{mul-le-mul_right, mod-lt, div-mul-le_self, div-add-mod'}
use brainix_old.Base.{
  ℕ, suc, ◌+◌, ◌*◌, ◌/◌, ◌%◌, ◌≤◌, ◌<◌, ◌≡◌, ◌≢◌, ◌⊎◌, inl, inr, sym, ◌∙◌, ltb, arith, Bool-cases,
}
use brainix_old.Inode.{Bytes, copied, place}

-- Multiples of a size leave room for one piece of that size.
room : (x y size : ℕ) → x < y → x * size + size ≤ y * size
room x y size h = let le : suc x * size ≤ y * size = mul-le-mul_right size h in omega (arith, le)

module _ (table size block_size : ℕ) (some_size : 0 < size) (fits : 0 < block_size / size) where
  -- The block and the offset of the inode with the given index in its group.
  abbrev pub spot : ℕ → ℕ × (ℕ × Unit {0})
  spot index = place table index (block_size / size) size tt

  abbrev pub block_of : ℕ → ℕ
  block_of index = (spot index).0

  abbrev pub offset_of : ℕ → ℕ
  offset_of index = (spot index).1.0

  offset_of-bound : (index : ℕ) → offset_of index + size ≤ block_size
  offset_of-bound index =
      let below = room (index % (block_size / size)) (block_size / size) size (mod-lt index fits) in
      omega (arith, below, div-mul-le_self block_size size)

  same_spot :
      (a b : ℕ)
      → block_of a ≡ block_of b
      → a % (block_size / size) ≡ b % (block_size / size)
      → a ≡ b
  same_spot a b e r =
      let q : a / (block_size / size) ≡ b / (block_size / size) = omega (arith, e) in
      sym (div-add-mod' a (block_size / size)) ∙ rw (q, r) (div-add-mod' b (block_size / size))

  apart :
      (a b : ℕ)
      → a ≢ b
      → block_of a ≡ block_of b
      → (offset_of a + size ≤ offset_of b) ⊎ (offset_of b + size ≤ offset_of a)
  apart a b ne e =
      let x = a % (block_size / size) in
      let y = b % (block_size / size) in
      elim (Bool-cases (ltb x y)) [
        | inl h ↦ inl (room x y size (ground arith))
        | inr h ↦ elim (Bool-cases (ltb y x)) [
          | inl h' ↦ inr (room y x size (ground arith))
          | inr h' ↦ absurd (ne (same_spot a b e (ground arith)))
        ]
      ]

  -- Inodes that fit in a block stand in their blocks without overlapping. Writing an inode to its
  -- place and reading it again gives its bytes; it reads every other inode of the block as before;
  -- and it stays within the block.
  pub copied_lem :
      (block raw old : Bytes) (a b : ℕ)
      → a ≢ b
      → block_of a ≡ block_of b
      → let block' = copied block raw (offset_of a) 0 size in
        ((k : ℕ) → k < size → copied old block' 0 (offset_of a) size k ≡ raw k)
        × ((k : ℕ)
            → k < size
            → copied old block' 0 (offset_of b) size k ≡ copied old block 0 (offset_of b) size k)
        × ((k : ℕ) → block_size ≤ k → block' k ≡ block k)
  copied_lem block raw old a b ne e = (
    λ k h. ground arith,
    λ k h. (let far = apart a b ne e in ground arith),
    λ k h. (let bound = offset_of-bound a in ground arith),
  )
