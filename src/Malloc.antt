-- ===== src/Malloc.antt =====
-- The slab allocator: src/kernel/malloc.c, on one heap. A `slab_t *` is its address; the fields of
-- all slabs are the maps of `Heap`. `first` is SLAB_FIRST, the bottom of the heap. The pages of the
-- address space (src/kernel/paging.c) are a parameter: `next_addr` is SLAB_NEXT, and `new_page`
-- is SLAB_NEW, with no result for NULL. A slab's header is written wherever the slab begins: that
-- the page is mapped there is not part of the model. Sizes and addresses are 32-bit words.
pub mod Alloc
pub mod Free
pub mod Grow
pub mod Tiling
mod Tests
use brainix_old.Base.{
  ℕ, zero, suc, ◌+◌, ◌-◌, ◌*◌, ◌/◌, ◌%◌, ◌^◌, Bool, true, false, ◌&&◌, ◌||◌, not, Option, none,
  some, ltb, leb, ◌==◌, if◌then◌else◌, update,
}
use brainix_old.Ring.{Links, set_next, set_prev}

-- `sizeof(slab_t)`: the structure is packed.
abbrev pub header : ℕ
header = 13

abbrev pub pg_size : ℕ
pg_size = 4096

pub record Heap (S : Type 0) : Type 0 where
  pub used : ℕ → Bool
  pub size : ℕ → ℕ
  pub links : Links
  pub pages : S

-- How many pages hold the bytes and a slab's header.
abbrev pub pages_for : ℕ → ℕ
pages_for n =
    let increment = (n + header) % 2 ^ 32 in
    increment / pg_size + (if ltb 0 (increment % pg_size) then 1 else 0)

module _ {S : Type 0} where
  -- The loop of `common_sbrk`: whether every page could be had.
  unfoldable pub new_pages : (new_page : S → Option S) → ℕ → S → Bool × S
  new_pages new_page zero s = (true, s)
  new_pages new_page (suc n) s = elim (new_page s) [
    | none ↦ (false, s)
    | some s' ↦ new_pages new_page n s'
  ]

  -- `slab->next = slab->next->prev = new_slab` comes last.
  unfoldable pub split : Heap S → (slab size : ℕ) → Heap S
  split h slab n =
      let new = slab + header + n in
      let old = h.links.next slab in
      record h {
        used = update h.used new false;
        size = update (update h.size new (h.size slab - (n + header))) slab n;
        links = set_next (set_prev (set_next (set_prev h.links new slab) new old) old new) slab new;
      }

  unfoldable pub merge : Heap S → (slab : ℕ) → Heap S
  merge h slab =
      let after = h.links.next slab in
      let l = set_next h.links slab (h.links.next after) in
      record h {
        size = update h.size slab (h.size slab + (header + h.size after));
        links = set_prev l (l.next slab) slab;
      }

  module _ (first : ℕ) where
    -- The lines of `common_sbrk` behind the loop: `old` is the old break.
    unfoldable pub add_slab : Heap S → (old num_new_pgs : ℕ) → Heap S
    add_slab h old n =
        let last = h.links.prev first in
        record h {
          used = update h.used old false;
          size = update h.size old (n * pg_size - header);
          links =
              set_prev (set_next (set_prev (set_next h.links last old) old last) old first) first
                old;
        }

    unfoldable pub common_free : Heap S → (ptr : ℕ) → Heap S
    common_free h ptr =
        if ptr == 0
        then h
        else let slab = ptr - header in
          let h1 = record h { used = update h.used slab false } in
          let next = h1.links.next slab in
          let h2 = if not (next == first) && not (h1.used next) then merge h1 slab else h1 in
          let prev = h2.links.prev slab in
          if not (prev == h2.links.prev first) && not (h2.used prev) then merge h2 prev else h2

    -- What is done with the slab that the loop of `common_malloc` finds.
    unfoldable pub take_slab : Heap S → (slab size : ℕ) → Heap S
    take_slab h slab n =
        let h' = if ltb (n + header) (h.size slab) then split h slab n else h in
        record h' { used = update h'.used slab true }

    module _ (next_addr : S → ℕ) (new_page : S → Option S) where
      pub sbrk_with : Heap S → (n : ℕ) → Bool × S → Option ℕ × Heap S
      sbrk_with h n (false, s) = (none, record h { pages = s })
      sbrk_with h n (true, s) =
          let old = next_addr h.pages in
          (some (old + header), add_slab (record h { pages = s }) old n)

      -- `increment` is a word, which is negative from 2 ^ 31 on. No result is -1, with ENOMEM in
      -- errno.
      unfoldable pub common_sbrk : Heap S → (increment : ℕ) → Option ℕ × Heap S
      unfolding sbrk_with
      common_sbrk h increment =
          if (increment == 0) || leb (2 ^ 31) increment
          then (some (next_addr h.pages), h)
          else sbrk_with h (pages_for increment) (new_pages new_page (pages_for increment) h.pages)

      -- The loop of `common_malloc`, which ignores what `common_sbrk` returns: the slab where it
      -- stops, or none when the fuel has run out.
      unfoldable pub search : (fuel : ℕ) → Heap S → (slab size : ℕ) → Option (ℕ × Heap S)
      search zero h slab n = none
      search (suc fuel) h slab n =
          let h' = if h.links.next slab == first then (common_sbrk h n).1 else h in
          let rest = search fuel h' (h'.links.next slab) n in
          if h.used slab || ltb (h.size slab) n then rest else some (slab, h)

      -- The outer result is none when the loop does not end within the fuel; the inner one is NULL.
      unfoldable pub common_malloc : (fuel : ℕ) → Heap S → (size : ℕ) → Option (Option ℕ × Heap S)
      common_malloc fuel h n = if n == 0 then some (none, h) else elim (search fuel h first n) [
        | none ↦ none
        | some (slab, h') ↦ some (some (slab + header), take_slab h' slab n)
      ]

      -- `heap_init`, in the address space that is loaded: whether the first page could be had.
      unfoldable pub heap_init : Heap S → Bool × Heap S
      heap_init h =
          let slab = next_addr h.pages in
          elim (new_page h.pages) [
            | none ↦ (false, h)
            | some s ↦ (
              true,
              record {
                used = update h.used slab false;
                size = update h.size slab (pg_size - header);
                links = set_next (set_prev h.links slab slab) slab slab;
                pages = s;
              },
            )
          ]
