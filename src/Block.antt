-- ===== src/Block.antt =====
-- The block cache: src/fs/block.c, with inc/fs/block.h. A `block_t *` is an index into
-- `block[NUM_BLOCKS]`; the `prev` and `next` fields are the two maps of `links`.
-- `dev_rw` of src/fs/device.c, which exchanges messages with the device driver, is the parameter
-- `dev_rw`: from the device's state, the device, whether to read, the offset in bytes and the
-- buffer it gives the device's state and the buffer that it leaves, and the return value, which
-- sets err_code if it is negative.
pub mod Order
pub mod Cached
pub mod Flushed
pub mod Get
pub mod Init
mod Tests
pub mod Mounts
pub mod Store
pub mod Stored
pub mod Sync
pub mod Use
use brainix_old.Base.{
  ℕ, zero, suc, ◌+◌, ◌-◌, ◌*◌, ◌%◌, ◌^◌, Bool, true, false, ◌&&◌, not, Option, none, some, ◌==◌,
  ltb, leb, if◌then◌else◌, update,
}
use brainix_old.Base.Bytes.{set_word}
use brainix_old.Ring.{Links, insert_before, unlink}
use brainix_old.Ring.Walk.{ring_walk}
use brainix_old.Super.{Super, Supers, super_get, no_dev}

abbrev pub num_blocks : ℕ
num_blocks = 80

abbrev pub cached_size : ℕ
cached_size = 1024

module _ (Dev Data : Type 0) where
  pub record Block : Type 0 where
    pub contents : Data
    pub dev : ℕ
    pub blk : ℕ
    pub count : ℕ
    pub dirty : Bool

  -- The cache, with the superblock table, the devices and err_code, which the transfer of a block
  -- changes.
  pub record Cache : Type 0 where
    pub block : ℕ → Block
    pub links : Links
    pub lru : ℕ
    pub supers : Supers
    pub device : Dev
    pub err_code : ℕ

-- What `block_get` comes to: the block, a panic, or a dereference of NULL.
pub data Got (Dev Data : Type 0) : Type 0 where
  got : ℕ → Cache Dev Data → Got Dev Data
  no_free_blocks : Got Dev Data
  fault : Got Dev Data

-- The superblock of a device that has been written to; `now` is what `do_time` returns.
touched : ℕ → Super → Super
touched now s = record s { raw = set_word s.raw 48 now; dirty = true }

abbrev pub DevRw : Type 0 → Type 0 → Type 0
DevRw Dev Data = Dev → ℕ → Bool → ℕ → Data → Dev × (Data × ℕ)

-- What a return value, as a word, does to err_code.
abbrev pub heard : (err_code ret : ℕ) → ℕ
heard err_code ret = if leb (2 ^ 31) ret then 2 ^ 32 - ret else err_code

-- The offset of a block, an off_t of 32 bits.
abbrev pub block_off : (blk : ℕ) → ℕ
block_off blk = blk * cached_size % 2 ^ 32

module _ {Dev Data : Type 0} where
  unfoldable pub block_init : Cache Dev Data → Cache Dev Data
  block_init c = record c {
    block = λ k.
        if ltb k num_blocks
        then record (c.block k) { dev = no_dev; blk = 0; count = 0; dirty = false }
        else c.block k;
    links = record {
      next = λ k.
          if ltb k (num_blocks - 1)
          then k + 1
          else if k == num_blocks - 1
          then 0
          else c.links.next k;
      prev = λ k.
          if k == 0 then num_blocks - 1 else if ltb k num_blocks then k - 1 else c.links.prev k;
    };
    lru = 0;
  }

  -- The last lines of the reinsertion write what `insert_before` writes.
  unfoldable pub recently_used : Cache Dev Data → ℕ → (most : Bool) → Cache Dev Data
  recently_used c k most =
      let lru = if k == c.lru then c.links.next c.lru else c.lru in
      let l = insert_before (unlink c.links k) lru k in
      record c { links = l; lru = if most then lru else l.prev lru }

  abbrev pub set_block : Cache Dev Data → ℕ → Block Dev Data → Cache Dev Data
  set_block c k b = record c { block = update c.block k b }

  touch : ℕ → Cache Dev Data → Option ℕ → Option (Cache Dev Data)
  unfolding touched
  touch now c none = none
  touch now c (some s) = some (record c { supers = update c.supers s (touched now (c.supers s)) })

  module _ (dev_rw : DevRw Dev Data) (now : ℕ) where
    -- The exchange with the device, after which the cached block is synchronized.
    unfoldable pub transfer : Cache Dev Data → ℕ → (read : Bool) → Cache Dev Data
    transfer c k read =
        let b = c.block k in
        let (d, (contents, ret)) = dev_rw c.device b.dev read (block_off b.blk) b.contents in
        record (set_block c k (record b { contents = contents; dirty = false })) {
          device = d;
          err_code = heard c.err_code ret;
        }

    -- No result: the superblock of a block that is written is not in the table, and the code
    -- dereferences NULL.
    unfoldable pub block_rw : Cache Dev Data → ℕ → (read : Bool) → Option (Cache Dev Data)
    unfolding touch transfer
    block_rw c k read =
        if not (c.block k).dirty
        then some c
        else let c' = transfer c k read in
          if read then some c' else touch now c' (super_get c'.supers (c.block k).dev)

    -- From slot k on, n slots before the end.
    unfoldable pub sync_from : ℕ → ℕ → ℕ → Cache Dev Data → Option (Cache Dev Data)
    sync_from d k zero c = some c
    sync_from d k (suc n) c = elim (if (c.block k).dev == d then block_rw c k false else some c) [
      | none ↦ none
      | some c' ↦ sync_from d (k + 1) n c'
    ]

    unfoldable pub dev_sync : Cache Dev Data → ℕ → Option (Cache Dev Data)
    dev_sync c d = sync_from d 0 num_blocks c

    pub hit : Cache Dev Data → ℕ → Got Dev Data
    hit c k =
        let b = c.block k in
        got k (recently_used (set_block c k (record b { count = (b.count + 1) % 2 ^ 8 })) k true)

    pub read_in : Option (Cache Dev Data) → ℕ → Got Dev Data
    read_in none k = fault
    read_in (some c) k = got k (recently_used c k true)

    pub evict : Option (Cache Dev Data) → (k d n : ℕ) → Got Dev Data
    unfolding read_in
    evict none k d n = fault
    evict (some c) k d n =
        read_in
          (block_rw
            (set_block c k (record (c.block k) { dev = d; blk = n; count = 1; dirty = true })) k
            true)
          k

    pub miss : Cache Dev Data → (d n : ℕ) → Option ℕ → Got Dev Data
    unfolding evict
    miss c d n none = no_free_blocks
    miss c d n (some k) = evict (block_rw c k false) k d n

    pub get_from : Cache Dev Data → (d n : ℕ) → Option ℕ → Got Dev Data
    unfolding hit miss
    get_from c d n none =
        miss c d n (ring_walk num_blocks c.links.next (λ k. (c.block k).count == 0) c.lru c.lru)
    get_from c d n (some k) = hit c k

    unfoldable pub block_get : Cache Dev Data → (d n : ℕ) → Got Dev Data
    unfolding get_from
    block_get c d n =
        let first = c.links.prev c.lru in
        get_from c d n (
          ring_walk num_blocks c.links.prev (λ k. ((c.block k).dev == d) && ((c.block k).blk == n))
            first first)

    -- ROBUST is SLOPPY in inc/config.h.
    unfoldable pub block_put :
        Cache Dev Data → Option ℕ → (robust : ℕ) → (important : Bool) → Option (Cache Dev Data)
    block_put c none robust important = some c
    block_put c (some k) robust important =
        let b = c.block k in
        let count = (b.count + 255) % 256 in
        let c' = set_block c k (record b { count = count }) in
        if ltb 0 count
        then some c'
        else if robust == 2
        then block_rw c' k false
        else if robust == 1
        then (if important then block_rw c' k false else some c')
        else some c'

  -- From slot k on, n slots before the end.
  unfoldable pub purge_from : ℕ → ℕ → ℕ → Cache Dev Data → Cache Dev Data
  purge_from d k zero c = c
  purge_from d k (suc n) c = purge_from d (k + 1) n (
      if (c.block k).dev == d
      then recently_used
          (set_block c k (record (c.block k) { dev = no_dev; blk = 0; count = 0; dirty = false })) k
          false
      else c)

  unfoldable pub dev_purge : Cache Dev Data → ℕ → Cache Dev Data
  dev_purge c d = purge_from d 0 num_blocks c
