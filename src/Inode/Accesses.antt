-- ===== src/Inode/Accesses.antt =====
-- Any sequence of accesses to blocks, as src/fs/inode.c, src/fs/group.c and src/fs/search.c make
-- them, through the cache of src/fs/block.c.
use brainix_old.Base.{
  ℕ, ◌≡◌, ◌≢◌, ◌<◌, ◌∙◌, refl, Option, some, List, [], ◌∷◌, ◌>>=◌, true, mem, arith,
}
use brainix_old.Super.{no_dev}
use brainix_old.Block.{Cache, DevRw, block_init, num_blocks, block_off}
use brainix_old.Block.Init.{count_up, block_init-IsCache}
use brainix_old.Block.Store.{IsStore, block_limit}
use brainix_old.Inode.{Bytes, with_block}
use brainix_old.Inode.Blocks.{Stores, after, Accessed, with_block-Accessed}
use brainix_old.Inode.Ready.{Ready, IsMounted, IsMounted-same, SameDevs, with_block-Ready}

-- A block to get, and how it is changed, none for a block that is only read.
pub record Access : Type 0 where
  pub dev : ℕ
  pub blk : ℕ
  pub edit : Option (Bytes → Bytes)

module _ {Dev : Type 0} where
  -- The devices of the accesses are mounted, and the offsets of the blocks fit in an off_t.
  abbrev pub AllMounted : Cache Dev Bytes → List Access → Type 0
  AllMounted c [] = Unit
  AllMounted c (a ∷ l) =
      (a.dev ≢ no_dev) × IsMounted c a.dev × (a.blk < block_limit) × AllMounted c l

  pub AllMounted-same :
      (c c' : Cache Dev Bytes) (l : List Access) → SameDevs c c' → AllMounted c l → AllMounted c' l
  AllMounted-same c c' [] h all = tt
  AllMounted-same c c' (a ∷ l) h all =
      (all.0, IsMounted-same c c' a.dev h all.1, all.2, AllMounted-same c c' l h all.3)

  module _ (look : Dev → (d off : ℕ) → Bytes) (dev_rw : DevRw Dev Bytes) (now : ℕ)
      (store : IsStore dev_rw look) where
    -- What the accesses read, and the cache after them.
    unfoldable pub accesses : List Access → Cache Dev Bytes → Option (List Bytes × Cache Dev Bytes)
    accesses [] c = some ([], c)
    accesses (a ∷ l) c = do
      r ← with_block dev_rw now c a.dev a.blk a.edit
      t ← accesses l r.1
      some (r.0 ∷ t.0, t.1)

    -- What they read of a plain map from devices and block numbers to contents, and the map after
    -- them.
    abbrev pub plain : List Access → ((d n : ℕ) → Bytes) → List Bytes × ((d n : ℕ) → Bytes)
    plain [] m = ([], m)
    plain (a ∷ l) m =
        let t = plain l (after look dev_rw now store m a.dev a.blk a.edit) in
        (m a.dev a.blk ∷ t.0, t.1)

    -- At the start the cache is empty, and stands for what the devices hold.
    pub block_init-Stores :
        (c : Cache Dev Bytes)
        → Stores look dev_rw now store (λ d n. look c.device d (block_off n)) (block_init c)
    unfolding block_init
    block_init-Stores c =
        let empty : (k : ℕ)
            → mem k (count_up 0 num_blocks) ≡ true
            → ((block_init c).block k).dev ≡ no_dev =
          λ k i. (let lt = (block_init-IsCache c).in_table k i in ground arith) in
        (
          count_up 0 num_blocks,
          block_init-IsCache c,
          record {
            small = λ k i ne. absurd (ne (empty k i));
            held = λ k i ne. absurd (ne (empty k i));
            clean = λ k i ne e. absurd (ne (empty k i));
            absent = λ d n ne lt gone. refl;
          },
        )

    -- Any sequence of accesses to blocks through the cache comes to an end, and reads what it would
    -- read of the devices without a cache, each block as it was last changed, whichever blocks are
    -- evicted in between. This holds for a device that keeps what is written, from a cache in which
    -- nobody uses a block, if the devices of the accesses, and those of the blocks that must be
    -- written back, are mounted, and the offsets of the blocks are less than 2 ^ 32. Afterwards
    -- nobody uses a block again, the cache and the devices stand for the blocks as they were changed,
    -- and the same devices are mounted.
    pub accesses-plain :
        (l : List Access) (c : Cache Dev Bytes) (m : (d n : ℕ) → Bytes)
        → Stores look dev_rw now store m c
        → Ready c
        → AllMounted c l
        → (t : List Bytes × Cache Dev Bytes) × (accesses l c ≡ some t)
          × (t.0 ≡ (plain l m).0)
          × Stores look dev_rw now store (plain l m).1 t.1
          × Ready t.1
          × SameDevs c t.1
    unfolding accesses
    accesses-plain [] c m s ready all = (([], c), refl, refl, s, ready, λ j. refl)
    accesses-plain (a ∷ l) c m s ready all =
        let (r, e, ready', devs) =
          with_block-Ready dev_rw now c s.0 a.dev a.blk a.edit s.1 ready all.1 in
        let done : Accessed look dev_rw now store m a.dev a.blk a.edit r =
          rw e at
            (with_block-Accessed look dev_rw now store c m a.dev a.blk a.edit all.0 all.2 s) in
        let (t, e', same, s', ready2, devs2) =
          accesses-plain l r.1 (after look dev_rw now store m a.dev a.blk a.edit) done.1 ready'
            (AllMounted-same c r.1 l devs all.3) in
        (
          (r.0 ∷ t.0, t.1),
          rw (e, e') refl,
          rw (done.0, same) refl,
          s',
          ready2,
          λ j. devs2 j ∙ devs j,
        )
