-- ===== src/Server/WrittenBack.antt =====
-- A superblock written to its block and read again: super_write and super_read of src/fs/super.c.
use brainix_old.Base.{
  ℕ, ◌+◌, ◌%◌, ◌&&◌, ltb, Whenever-if, ◌<◌, ◌≡◌, ◌≢◌, ◌∙◌, refl, true, false, ◌==◌, Option, none,
  some, arith, Option-cases, Bool-cases, inl, inr, Whenever, Whenever-bind, List, [], ◌∷◌, sym, ap,
  ◌⊎◌,
}
use brainix_old.Base.Bytes.{Bytes, copied}
use brainix_old.Super.{Super, super_get, no_dev}
use brainix_old.Block.{Cache, block_get, block_put}
use brainix_old.Block.Store.{IsStore}
use brainix_old.Inode.{with_block, gotten, changed, robust}
use brainix_old.Inode.Blocks.{
  Stores, Has, after, Accessed, block_get-Has, block_put-Stores, with_block-Accessed,
}
use brainix_old.Inode.Ready.{Ready, IsMounted, IsMounted-same, SameDevs, with_block-Ready}
use brainix_old.Inode.Accesses.{
  Access, AllMounted, AllMounted-same, accesses, plain, accesses-plain,
}
use brainix_old.Block.Cached.{IsCache}
use brainix_old.Server.{Env}
use brainix_old.Server.Disk.{super_read, super_write, super_block, super_size, set_super}

both :
    {A : Type 0} (P Q : A → Type 0) (r : Option A)
    → Whenever P r
    → Whenever Q r
    → Whenever (λ a. P a × Q a) r
both P Q none p q = tt
both P Q (some a) p q = (p, q)

module _ {Dev : Type 0} (e : Env Dev) (look : Dev → (d off : ℕ) → Bytes)
    (store : IsStore e.dev_rw look) where
  abbrev Kept : ((d n : ℕ) → Bytes) → Cache Dev Bytes → Type 0
  Kept = Stores look e.dev_rw e.now store

  -- A block that starts with the bytes of a superblock.
  abbrev pub Begins : (raw b : Bytes) → Type 0
  Begins raw b = (a : ℕ) → a < super_size → b a ≡ raw a

  -- The block of the superblock in slot sp has the bytes that the slot has.
  abbrev pub Written : (dev sp : ℕ) → Cache Dev Bytes → Type 0
  Written dev sp c =
      (m : (d n : ℕ) → Bytes) × Kept m c × Begins (c.supers sp).raw (m dev super_block)

  set_super-Kept :
      (m : (d n : ℕ) → Bytes) (c : Cache Dev Bytes) (sp : ℕ) (x : Super)
      → Kept m c
      → Kept m (set_super e c sp x)
  set_super-Kept m c sp x (order, v, h) = (
    order,
    record { queue = v.queue; in_table = v.in_table; whole = v.whole; unique = v.unique },
    record { small = h.small; held = h.held; clean = h.clean; absent = h.absent },
  )

  -- Putting a block that is got leaves the superblock table.
  block_put-supers :
      (c : Cache Dev Bytes) (k : ℕ)
      → Whenever (λ c'. c'.supers ≡ c.supers) (block_put e.dev_rw e.now c (some k) robust true)
  unfolding block_put
  block_put-supers c k =
      Whenever-if (λ c'. c'.supers ≡ c.supers) (ltb 0 (((c.block k).count + 255) % 256)) _ _ refl
        refl

  copied-Begins : (raw b : Bytes) → Begins raw (copied b raw 0 0 super_size)
  copied-Begins raw b a lt = ground arith

  super_write-Written :
      (c : Cache Dev Bytes) (sp : ℕ) (m : (d n : ℕ) → Bytes)
      → (c.supers sp).dirty ≡ true
      → (c.supers sp).dev ≢ no_dev
      → Kept m c
      → Whenever (Written (c.supers sp).dev sp) (super_write e c sp)
  unfolding super_write
  super_write-Written c sp m dirty some_dev s =
      let dev = (c.supers sp).dev in
      rw dirty (
        Whenever-bind (Has look e.dev_rw e.now store m dev super_block) (Written dev sp)
          (gotten (block_get e.dev_rw e.now c dev super_block)) _
          (block_get-Has look e.dev_rw e.now store c m dev super_block some_dev (omega arith) s)
          λ b got_it.
            let write = λ (d : Bytes). copied d (b.1.supers sp).raw 0 0 super_size in
            let m' = after look e.dev_rw e.now store m dev super_block (some write) in
            let c1 = changed b.1 b.0 (some write) in
            Whenever-bind (λ t. Kept m' t × (t.supers ≡ b.1.supers)) (Written dev sp)
              (block_put e.dev_rw e.now c1 (some b.0) robust true) _
              (both (Kept m') (λ t. t.supers ≡ b.1.supers)
                (block_put e.dev_rw e.now c1 (some b.0) robust true)
                (block_put-Stores look e.dev_rw e.now store m dev super_block b (some write)
                  some_dev (omega arith) got_it)
                (block_put-supers c1 b.0))
              λ t (s', same). (
                m',
                set_super-Kept m' t sp (record (t.supers sp) { dirty = false }) s',
                λ a lt.
                    let self : (sp == sp) ≡ true = ground arith in
                    let there : ((dev == dev) && (super_block == super_block)) ≡ true =
                      ground arith in
                    rw (self, same, there)
                      (copied-Begins (b.1.supers sp).raw (m dev super_block) a lt),
              ))

  -- The slot that has been read has the bytes; or no slot was free.
  abbrev pub ReadBack : (raw : Bytes) → Cache Dev Bytes → Option ℕ × Cache Dev Bytes → Type 0
  ReadBack raw t (none, t') = super_get t.supers no_dev ≡ none
  ReadBack raw t (some j, t') = Begins raw (t'.supers j).raw

  super_read-Begins :
      (raw : Bytes) (t : Cache Dev Bytes) (dev : ℕ) (m : (d n : ℕ) → Bytes)
      → dev ≢ no_dev
      → Kept m t
      → Ready t
      → IsMounted t dev
      → Begins raw (m dev super_block)
      → (q : Option ℕ × Cache Dev Bytes) × (super_read e t dev ≡ some q) × ReadBack raw t q
  unfolding super_read
  super_read-Begins raw t dev m some_dev s ready mounted w =
      elim (Option-cases (super_get t.supers no_dev)) [
        | inl q ↦ ((none, t), rw (super_read, q) refl, q)
        | inr (j, q) ↦
            let (b, eq, ready', devs) =
              with_block-Ready e.dev_rw e.now t s.0 dev super_block none s.1 ready mounted in
            let done : Accessed look e.dev_rw e.now store m dev super_block none b = rw eq at (
              with_block-Accessed look e.dev_rw e.now store t m dev super_block none some_dev
                (omega arith) s) in
            let self : (j == j) ≡ true = ground arith in
            (
              (
                some j,
                set_super e b.1 j
                    (record (b.1.supers j) { raw = copied (b.1.supers j).raw b.0 0 0 super_size }),
              ),
              rw (super_read, q, eq) refl,
              rw self λ a lt. copied-Begins b.0 (b.1.supers j).raw a lt ∙ rw done.0 (w a lt),
            )
      ]

  set_super-Ready :
      (t : Cache Dev Bytes) (sp : ℕ) (x : Super)
      → x.dev ≡ (t.supers sp).dev
      → Ready t
      → Ready (set_super e t sp x) × SameDevs t (set_super e t sp x)
  set_super-Ready t sp x same ready =
      let devs : SameDevs t (set_super e t sp x) = λ j. elim (Bool-cases (j == sp)) [
        | inl q ↦ let q' : j ≡ sp = ground arith in rw (q, q') same
        | inr q ↦ rw q refl
      ] in
      (
        λ k lt. (
          (ready k lt).0,
          λ dirty.
              IsMounted-same t (set_super e t sp x) (t.block k).dev devs ((ready k lt).1 dirty),
        ),
        devs,
      )

  super_write-Ready :
      (c : Cache Dev Bytes) (sp : ℕ) (order : List ℕ)
      → (c.supers sp).dirty ≡ true
      → IsCache c order
      → Ready c
      → IsMounted c (c.supers sp).dev
      → (t : Cache Dev Bytes) × (super_write e c sp ≡ some t) × Ready t × SameDevs c t
  unfolding super_write with_block
  super_write-Ready c sp order dirty v ready mounted =
      let dev = (c.supers sp).dev in
      elim (Option-cases (gotten (block_get e.dev_rw e.now c dev super_block))) [
        | inl q ↦
            let (r, eq, rest, devs) =
              with_block-Ready e.dev_rw e.now c order dev super_block none v ready mounted in
            absurd (let eq' = rw q at eq in cc)
        | inr (b, q) ↦
            let write = λ (d : Bytes). copied d (b.1.supers sp).raw 0 0 super_size in
            let (r, eq, ready', devs) =
              with_block-Ready e.dev_rw e.now c order dev super_block (some write) v ready
                mounted in
            elim (Option-cases
              (block_put e.dev_rw e.now (changed b.1 b.0 (some write)) (some b.0) robust true)) [
                | inl p ↦ absurd (let eq' = rw (q, p) at eq in cc)
                | inr (t, p) ↦
                    let eq' = rw (q, p) at eq in
                    let same : r.1 ≡ t = sym (put_left _ t r eq') in
                    let x = record (t.supers sp) { dirty = false } in
                    let left = set_super-Ready t sp x refl (rw same at ready') in
                    (
                      set_super e t sp x,
                      rw (dirty, q, p) refl,
                      left.0,
                      λ j. left.1 j ∙ (let d : SameDevs c t = rw same at devs in d j),
                    )
              ]
      ]
    where
      put_left :
          (b : Bytes) (t : Cache Dev Bytes) (r : Bytes × Cache Dev Bytes)
          → some (b, t) ≡ some r
          → t ≡ r.1
      put_left b t r eq = let eq' : (b, t) ≡ r = cc in ap (λ p. p.1) eq'

  -- None of the accesses changes the block.
  abbrev pub Untouched : (d n : ℕ) → List Access → Type 0
  Untouched d n [] = Unit
  Untouched d n (a ∷ l) = ((a.edit ≡ none) ⊎ ¬ ((a.dev ≡ d) × (a.blk ≡ n))) × Untouched d n l

  after-Untouched :
      (m : (d n : ℕ) → Bytes) (d n d' n' : ℕ) (f : Option (Bytes → Bytes))
      → (f ≡ none) ⊎ ¬ ((d' ≡ d) × (n' ≡ n))
      → after look e.dev_rw e.now store m d' n' f d n ≡ m d n
  after-Untouched m d n d' n' none h = refl
  after-Untouched m d n d' n' (some g) h = elim (Bool-cases ((d == d') && (n == n'))) [
    | inr q ↦ rw q refl
    | inl q ↦ absurd (elim h [ inl none_there ↦ cc | inr far ↦ far (ground arith, ground arith) ])
  ]

  plain-Untouched :
      (d n : ℕ) (l : List Access) (m : (d n : ℕ) → Bytes)
      → Untouched d n l
      → (plain look e.dev_rw e.now store l m).1 d n ≡ m d n
  plain-Untouched d n [] m u = refl
  plain-Untouched d n (a ∷ l) m u =
      plain-Untouched d n l (after look e.dev_rw e.now store m a.dev a.blk a.edit) u.1
      ∙ after-Untouched m d n a.dev a.blk a.edit u.0

  -- A changed superblock that `super_write` writes, into the cache or to the device, is read back by
  -- `super_read` with the bytes that it had in the table when it was written, after any accesses to
  -- other blocks and readings of its own, whichever blocks the cache evicts for them; all of them
  -- come to an end. If no slot of the table is free, `super_read` gives NULL. This holds for a device
  -- that keeps what is written, from a cache in which nobody uses a block, if the devices of the
  -- superblock, of the accesses, and of the blocks that must be written back, are mounted, and
  -- the offsets of the blocks are less than 2 ^ 32.
  pub super_read-write :
      (c : Cache Dev Bytes) (sp : ℕ) (m : (d n : ℕ) → Bytes) (l : List Access)
      → (c.supers sp).dirty ≡ true
      → (c.supers sp).dev ≢ no_dev
      → Stores look e.dev_rw e.now store m c
      → Ready c
      → IsMounted c (c.supers sp).dev
      → AllMounted c l
      → Untouched (c.supers sp).dev super_block l
      → (t : Cache Dev Bytes) × (r : List Bytes × Cache Dev Bytes) × (q : Option ℕ
          × Cache Dev Bytes)
        × (super_write e c sp ≡ some t)
        × (accesses look e.dev_rw e.now store l t ≡ some r)
        × (super_read e r.1 (c.supers sp).dev ≡ some q)
        × ReadBack (t.supers sp).raw r.1 q
  super_read-write c sp m l dirty some_dev s ready mounted all u =
      let dev = (c.supers sp).dev in
      let (t, eq, ready1, devs) = super_write-Ready c sp s.0 dirty s.1 ready mounted in
      let (m1, s1, w) : Written dev sp t = rw eq at (super_write-Written c sp m dirty some_dev s) in
      let (r, eq2, same, s2, ready2, devs2) =
        accesses-plain look e.dev_rw e.now store l t m1 s1 ready1
          (AllMounted-same c t l devs all) in
      let kept = plain-Untouched dev super_block l m1 u in
      let (q, eq3, back) =
        super_read-Begins (t.supers sp).raw r.1 dev (plain look e.dev_rw e.now store l m1).1
          some_dev s2 ready2 (IsMounted-same t r.1 dev devs2 (IsMounted-same c t dev devs mounted))
          (rw kept w) in
      (t, r, q, eq, eq2, eq3, back)
