-- ===== src/Block/Store.antt =====
-- The block cache as a store: with the devices behind it, it stands for one map from devices and
-- block numbers to contents (src/fs/block.c).
use brainix_old.Base.{
  ℕ, ◌^◌, ◌<◌, ◌≡◌, ◌≢◌, ◌∙◌, sym, true, false, not, ◌&&◌, Option, none, some, List, arith, ◌==◌,
  mem, Bool-cases, inl, inr, if◌then◌else◌, Whenever, Whenever-if,
}
use brainix_old.Super.{no_dev, super_get}
use brainix_old.Block.{Cache, DevRw, block_off, touch, transfer, block_rw, set_block}
use brainix_old.Block.Cached.{IsCache}
use brainix_old.Block.Use.{Holds}
use brainix_old.Block.Get.{asked}

-- A device that keeps what is written: `look` is what it holds at an offset.
pub record IsStore {Dev Data : Type 0} (dev_rw : DevRw Dev Data) (look : Dev → (d off : ℕ) → Data)
    : Type 0 where
  pub read_gives : (s : Dev) (d off : ℕ) (b : Data) → (dev_rw s d true off b).1.0 ≡ look s d off
  pub read_keeps :
      (s : Dev) (d off : ℕ) (b : Data) (d' off' : ℕ)
      → look (dev_rw s d true off b).0 d' off' ≡ look s d' off'
  pub write_keeps : (s : Dev) (d off : ℕ) (b : Data) → (dev_rw s d false off b).1.0 ≡ b
  pub write_sets :
      (s : Dev) (d off : ℕ) (b : Data) (d' off' : ℕ)
      → look (dev_rw s d false off b).0 d' off'
        ≡ (if (d' == d) && (off' == off) then b else look s d' off')

-- The offsets of the blocks below differ: they are less than 2 ^ 32.
abbrev pub block_limit : ℕ
block_limit = 2 ^ 22

module _ {Dev Data : Type 0} (look : Dev → (d off : ℕ) → Data) where
  -- Each block that is in reach is in the cache as m has it, on the device too if it is clean there, and on the
  -- device if it is not in the cache.
  pub record Contents (c : Cache Dev Data) (order : List ℕ) (m : (d n : ℕ) → Data) : Type 0 where
    pub small :
        (k : ℕ) → mem k order ≡ true → (c.block k).dev ≢ no_dev → (c.block k).blk < block_limit
    pub held :
        (k : ℕ)
        → mem k order ≡ true
        → (c.block k).dev ≢ no_dev
        → (c.block k).contents ≡ m (c.block k).dev (c.block k).blk
    pub clean :
        (k : ℕ)
        → mem k order ≡ true
        → (c.block k).dev ≢ no_dev
        → (c.block k).dirty ≡ false
        → look c.device (c.block k).dev (block_off (c.block k).blk)
          ≡ m (c.block k).dev (c.block k).blk
    pub absent :
        (d n : ℕ)
        → d ≢ no_dev
        → n < block_limit
        → ((k : ℕ) → mem k order ≡ true → ¬ Holds c k d n)
        → look c.device d (block_off n) ≡ m d n

  module _ (dev_rw : DevRw Dev Data) (now : ℕ) (store : IsStore dev_rw look) where
    same_place : (d n : ℕ) → ((d == d) && (block_off n == block_off n)) ≡ true
    same_place d n = ground arith

    elsewhere :
        (d n d' n' : ℕ)
        → d ≢ no_dev
        → n < block_limit
        → (d' ≢ no_dev → n' < block_limit)
        → ¬ ((d ≡ d') × (n ≡ n'))
        → ((d == d') && (block_off n == block_off n')) ≡ false
    elsewhere d n d' n' ne lt lt' far =
        elim (Bool-cases ((d == d') && (block_off n == block_off n'))) [
          | inl q ↦
              let same : d ≡ d' = ground arith in
              let at : block_off n ≡ block_off n' = ground arith in
              let lt2 = lt' (rw same at ne) in absurd (far (same, omega (arith, at, lt, lt2)))
          | inr q ↦ q
        ]

    transfer_write-Contents :
        (c : Cache Dev Data) (order : List ℕ) (m : (d n : ℕ) → Data) (k : ℕ)
        → IsCache c order
        → mem k order ≡ true
        → Contents c order m
        → Contents (transfer dev_rw now c k false) order m
    unfolding transfer
    transfer_write-Contents c order m k v i h =
        let b = c.block k in
        let kept = store.write_keeps c.device b.dev (block_off b.blk) b.contents in
        let sets = store.write_sets c.device b.dev (block_off b.blk) b.contents in
        record {
          small = λ j mj. elim (Bool-cases (j == k)) [
            | inl q ↦ rw q (h.small k i)
            | inr q ↦ rw q (h.small j mj)
          ];
          held = λ j mj. elim (Bool-cases (j == k)) [
            | inl q ↦ rw q λ ne. kept ∙ h.held k i ne
            | inr q ↦ rw q (h.held j mj)
          ];
          clean = λ j mj. elim (Bool-cases (j == k)) [
            | inl q ↦ rw q λ ne clean.
                sets b.dev (block_off b.blk) ∙ rw (same_place b.dev b.blk) (h.held k i ne)
            | inr q ↦ rw q λ ne clean.
                let x = c.block j in
                let far =
                  elsewhere x.dev x.blk b.dev b.blk ne (h.small j mj ne) (h.small k i)
                    (λ at. absurd (let u = v.unique j k mj i ne at.0 at.1 in ground arith)) in
                sets x.dev (block_off x.blk) ∙ rw far (h.clean j mj ne clean)
          ];
          absent = λ d n ne lt none_holds.
              let gone : (j : ℕ) → mem j order ≡ true → ¬ Holds c j d n = λ j mj at.
                none_holds j mj (elim (Bool-cases (j == k)) [
                  | inl q ↦ let q' : j ≡ k = ground arith in rw q (rw q' at at)
                  | inr q ↦ rw q at
                ]) in
              let far =
                elsewhere d n b.dev b.blk ne lt (h.small k i)
                  (λ at. gone k i (sym at.0, sym at.1)) in
              sets d (block_off n) ∙ rw far (h.absent d n ne lt gone);
        }

    -- Writing a block back leaves what the cache stands for.
    pub block_rw-Contents :
        (c : Cache Dev Data) (order : List ℕ) (m : (d n : ℕ) → Data) (k : ℕ)
        → IsCache c order
        → mem k order ≡ true
        → Contents c order m
        → Whenever (λ c'. Contents c' order m) (block_rw dev_rw now c k false)
    unfolding block_rw touch
    block_rw-Contents c order m k v i h =
        Whenever-if (λ c'. Contents c' order m) (not (c.block k).dirty) _ _ h
          (after_touch (super_get (transfer dev_rw now c k false).supers (c.block k).dev))
      where
        after_touch :
            (sp : Option ℕ)
            → Whenever (λ c'. Contents c' order m) (touch now (transfer dev_rw now c k false) sp)
        after_touch none = tt
        after_touch (some sp) =
            let t = transfer_write-Contents c order m k v i h in
            record { small = t.small; held = t.held; clean = t.clean; absent = t.absent }

    -- The slot k, whose block is clean, takes over a block that is in no slot.
    abbrev pub taken : Cache Dev Data → (k d n : ℕ) → Cache Dev Data
    taken c k d n = set_block c k (record (c.block k) { dev = d; blk = n; count = 1; dirty = true })

    pub transfer_read-Contents :
        (c : Cache Dev Data) (order : List ℕ) (m : (d n : ℕ) → Data) (k d n : ℕ)
        → mem k order ≡ true
        → (c.block k).dirty ≡ false
        → d ≢ no_dev
        → n < block_limit
        → ((j : ℕ) → mem j order ≡ true → ¬ Holds c j d n)
        → Contents c order m
        → Contents (transfer dev_rw now (taken c k d n) k true) order m
    unfolding transfer
    transfer_read-Contents c order m k d n i fresh some_dev lt gone h =
        let x = (c.block k).contents in
        let self : (k == k) ≡ true = ground arith in
        let gives = store.read_gives c.device d (block_off n) x in
        let keeps = store.read_keeps c.device d (block_off n) x in
        let loaded = h.absent d n some_dev lt gone in
        rw self (record {
          small = λ j mj. elim (Bool-cases (j == k)) [
            | inl q ↦ rw q λ ne. lt
            | inr q ↦ rw q (h.small j mj)
          ];
          held = λ j mj. elim (Bool-cases (j == k)) [
            | inl q ↦ rw q λ ne. gives ∙ loaded
            | inr q ↦ rw q (h.held j mj)
          ];
          clean = λ j mj. elim (Bool-cases (j == k)) [
            | inl q ↦ rw q λ ne clean. keeps d (block_off n) ∙ loaded
            | inr q ↦ rw q λ ne clean.
                keeps (c.block j).dev (block_off (c.block j).blk) ∙ h.clean j mj ne clean
          ];
          absent = λ d' n' ne lt' none_holds.
              keeps d' (block_off n') ∙ elim (Bool-cases (asked c d' n' k)) [
                | inl q ↦
                    let same_dev : (c.block k).dev ≡ d' = ground arith in
                    let same_blk : (c.block k).blk ≡ n' = ground arith in
                    let there = h.clean k i (rw same_dev ne) fresh in
                    rw (same_dev, same_blk) at there
                | inr q ↦ h.absent d' n' ne lt' λ j mj at. elim (Bool-cases (j == k)) [
                  | inl q' ↦ let same : j ≡ k = ground arith in absurd (ground arith)
                  | inr q' ↦ none_holds j mj (rw q' at)
                ]
              ];
        })
