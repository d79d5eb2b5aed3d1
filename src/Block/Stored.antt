-- ===== src/Block/Stored.antt =====
-- Getting a block leaves what the cache stands for: block_get of src/fs/block.c.
use brainix_old.Base.{
  ℕ, ◌+◌, ◌%◌, ◌^◌, ◌<◌, ◌≡◌, ◌≢◌, ◌∙◌, sym, true, false, Option, none, some, List, arith, ◌==◌,
  mem, Bool-cases, inl, inr, Whenever,
}
use brainix_old.Ring.Walk.{
  first_of, first_of-some, first_of-none, rev, mem-rev, walk_queue, walk_back,
}
use brainix_old.Super.{no_dev}
use brainix_old.Block.{
  Cache, DevRw, num_blocks, recently_used, transfer, block_rw, set_block, Got, got, no_free_blocks,
  fault, block_get, get_from, hit, miss, evict, read_in,
}
use brainix_old.Block.Cached.{IsCache, Transferred, block_rw-Transferred}
use brainix_old.Block.Use.{Holds}
use brainix_old.Block.Get.{free, asked}
use brainix_old.Block.Store.{
  IsStore, block_limit, Contents, block_rw-Contents, taken, transfer_read-Contents,
}

module _ {Dev Data : Type 0} (look : Dev → (d off : ℕ) → Data) (dev_rw : DevRw Dev Data) (now : ℕ)
    (store : IsStore dev_rw look) where
  -- What `block_get` gives leaves what the cache stands for.
  abbrev pub Loaded : List ℕ → ((d n : ℕ) → Data) → Got Dev Data → Type 0
  Loaded order m (got k c) = Contents look c order m
  Loaded order m no_free_blocks = Unit
  Loaded order m fault = Unit

  used-Contents :
      (c : Cache Dev Data) (order : List ℕ) (m : (d n : ℕ) → Data) (k : ℕ)
      → Contents look c order m
      → Contents look (recently_used c k true) order m
  unfolding recently_used
  used-Contents c order m k h = record {
    small = h.small;
    held = h.held;
    clean = h.clean;
    absent = h.absent;
  }

  pub recount-Contents :
      (c : Cache Dev Data) (order : List ℕ) (m : (d n : ℕ) → Data) (k n : ℕ)
      → Contents look c order m
      → Contents look (set_block c k (record (c.block k) { count = n })) order m
  recount-Contents c order m k n h = record {
    small = λ j mj. elim (Bool-cases (j == k)) [
      | inl q ↦ let q' : j ≡ k = ground arith in rw q (rw q' at (h.small j mj))
      | inr q ↦ rw q (h.small j mj)
    ];
    held = λ j mj. elim (Bool-cases (j == k)) [
      | inl q ↦ let q' : j ≡ k = ground arith in rw q (rw q' at (h.held j mj))
      | inr q ↦ rw q (h.held j mj)
    ];
    clean = λ j mj. elim (Bool-cases (j == k)) [
      | inl q ↦ let q' : j ≡ k = ground arith in rw q (rw q' at (h.clean j mj))
      | inr q ↦ rw q (h.clean j mj)
    ];
    absent = λ d n ne lt none_holds. h.absent d n ne lt λ j mj at.
        none_holds j mj (elim (Bool-cases (j == k)) [
          | inl q ↦ let q' : j ≡ k = ground arith in rw q (rw q' at at)
          | inr q ↦ rw q at
        ]);
  }

  read_in-Contents :
      (c : Cache Dev Data) (order : List ℕ) (m : (d n : ℕ) → Data) (k d n : ℕ)
      → mem k order ≡ true
      → (c.block k).dirty ≡ false
      → d ≢ no_dev
      → n < block_limit
      → ((j : ℕ) → mem j order ≡ true → ¬ Holds c j d n)
      → Contents look c order m
      → Loaded order m
          (read_in dev_rw now (block_rw dev_rw now (taken look dev_rw now store c k d n) k true) k)
  unfolding read_in block_rw
  read_in-Contents c order m k d n i fresh some_dev lt gone h =
      let self : (k == k) ≡ true = ground arith in
      let t =
        transfer_read-Contents look dev_rw now store c order m k d n i fresh some_dev lt gone h in
      rw self (
        rw self at (
          used-Contents (transfer dev_rw now (taken look dev_rw now store c k d n) k true) order m k
            t))

  evict-Contents :
      (c : Cache Dev Data) (order : List ℕ) (m : (d n : ℕ) → Data) (k d n : ℕ)
      → mem k order ≡ true
      → d ≢ no_dev
      → n < block_limit
      → ((j : ℕ) → mem j order ≡ true → ¬ Holds c j d n)
      → (r : Option (Cache Dev Data)) → Transferred c k r
      → Whenever (λ c'. Contents look c' order m) r
      → Loaded order m (evict dev_rw now r k d n)
  unfolding evict
  evict-Contents c order m k d n i some_dev lt gone none t h = tt
  evict-Contents c order m k d n i some_dev lt gone (some c') t h =
      read_in-Contents c' order m k d n i t.6 some_dev lt
        (λ j mj at. gone j mj (elim (Bool-cases (j == k)) [
          | inl q ↦
              let q' : j ≡ k = ground arith in
              let there : Holds c' k d n = rw q' at at in
              rw q' (sym t.3 ∙ there.0, sym t.4 ∙ there.1)
          | inr q ↦ rw (t.2 j (ground arith)) at at
        ]))
        h

  hit-Contents :
      (c : Cache Dev Data) (order : List ℕ) (m : (d n : ℕ) → Data) (k : ℕ)
      → Contents look c order m
      → Loaded order m (hit dev_rw now c k)
  unfolding hit
  hit-Contents c order m k h =
      used-Contents _ order m k (recount-Contents c order m k (((c.block k).count + 1) % 2 ^ 8) h)

  miss-Contents :
      (c : Cache Dev Data) (order : List ℕ) (m : (d n : ℕ) → Data) (d n : ℕ)
      → IsCache c order
      → d ≢ no_dev
      → n < block_limit
      → ((j : ℕ) → mem j order ≡ true → ¬ Holds c j d n)
      → Contents look c order m
      → (r : Option ℕ) → r ≡ first_of (free c) order
      → Loaded order m (miss dev_rw now c d n r)
  unfolding miss
  miss-Contents c order m d n v some_dev lt gone h none e = tt
  miss-Contents c order m d n v some_dev lt gone h (some k) e =
      let i = (first_of-some (free c) k order (sym e)).0 in
      evict-Contents c order m k d n i some_dev lt gone (block_rw dev_rw now c k false)
        (block_rw-Transferred dev_rw now c k false)
        (block_rw-Contents look dev_rw now store c order m k v i h)

  get_from-Contents :
      (c : Cache Dev Data) (order : List ℕ) (m : (d n : ℕ) → Data) (d n : ℕ)
      → IsCache c order
      → d ≢ no_dev
      → n < block_limit
      → Contents look c order m
      → (r : Option ℕ) → r ≡ first_of (asked c d n) (rev order)
      → Loaded order m (get_from dev_rw now c d n r)
  unfolding get_from
  get_from-Contents c order m d n v some_dev lt h (some k) e = hit-Contents c order m k h
  get_from-Contents c order m d n v some_dev lt h none e =
      miss-Contents c order m d n v some_dev lt
        (λ j mj at.
          let no = first_of-none (asked c d n) j (rev order) (sym e) (mem-rev j order ∙ mj) in
          ground arith)
        h _ (walk_queue num_blocks c.links (free c) c.lru order v.queue (omega (arith, v.whole)))

  -- Whichever block is evicted for it, `block_get` leaves what the cache stands for.
  pub block_get-Contents :
      (c : Cache Dev Data) (order : List ℕ) (m : (d n : ℕ) → Data) (d n : ℕ)
      → IsCache c order
      → d ≢ no_dev
      → n < block_limit
      → Contents look c order m
      → Loaded order m (block_get dev_rw now c d n)
  unfolding block_get
  block_get-Contents c order m d n v some_dev lt h =
      get_from-Contents c order m d n v some_dev lt h _
        (walk_back num_blocks c.links (asked c d n) c.lru order v.queue (omega (arith, v.whole)))
