-- ===== src/Paging.antt =====
-- Page directories and the pages of physical memory: src/kernel/paging.c. A page directory and a
-- page table are pages of 1024 entries; of an entry the bits `p` and `us` and the page number
-- `sign_phys` are kept, in the same place for both. pg_dir_map and pg_tbl_map, which make a page
-- visible in a window, are left out: an entry is read in its page. The NULL-terminated stacks of
-- pages are lists of physical addresses. No result is a panic, or a search past the end of a stack.
pub mod Map
pub mod Space
pub mod Unmap
mod Tests
use brainix_old.Base.{
  ℕ, zero, suc, ◌+◌, ◌-◌, ◌*◌, ◌/◌, ◌%◌, ◌^◌, Bool, true, false, ◌&&◌, not, Option, none, some,
  List, [], ◌∷◌, ltb, ◌==◌, if◌then◌else◌, update, mem, erase, ◌>>=◌,
}
use brainix_old.Malloc.{pg_size}

pub record Entry : Type 0 where
  pub p : Bool
  pub us : Bool
  pub sign_phys : ℕ

-- `entry` is physical memory as directories and tables: the entries by page number and index.
pub record Pages : Type 0 where
  pub entry : ℕ → ℕ → Entry
  pub free_pg : List ℕ
  pub used_pg : List ℕ

-- PDE() and PTE() of a 32-bit address.
abbrev pub pde : ℕ → ℕ
pde lin = lin / 2 ^ 22 % 1024

abbrev pub pte : ℕ → ℕ
pte lin = lin / 2 ^ 12 % 1024

-- The addresses of n pages from page j on.
abbrev pub page_list : (j n : ℕ) → List ℕ
page_list j zero = []
page_list j (suc n) = j * pg_size ∷ page_list (j + 1) n

unfoldable pub pg_stack_init : (num_pgs : ℕ) → Pages → Pages
pg_stack_init num_pgs s = record s { free_pg = page_list 0 num_pgs; used_pg = [] }

unfoldable pub pg_pop : Pages → Option (ℕ × Pages)
pg_pop s = elim s.free_pg [
  | [] ↦ none
  | phys ∷ rest ↦ some (phys, record s { free_pg = rest; used_pg = phys ∷ s.used_pg })
]

unfoldable pub pg_push : Pages → (phys : ℕ) → Option Pages
pg_push s phys =
    if mem phys s.used_pg
    then some (record s { used_pg = erase phys s.used_pg; free_pg = phys ∷ s.free_pg })
    else none

abbrev pub set_page : Pages → ℕ → (ℕ → Entry) → Pages
set_page s page e = record s { entry = update s.entry page e }

-- `pg_dir_new` and `pg_tbl_new`, on the page with the given number.
unfoldable pub pg_new : Pages → ℕ → Pages
pg_new s page =
    set_page s page
      (λ k. if ltb k 1024 then record { p = false; us = true; sign_phys = 0 } else s.entry page k)

-- The directory's entry for an address, with a new table if there is none.
unfoldable pub with_table : Pages → (pg_dir lin : ℕ) → Option Pages
with_table s pg_dir lin =
    let dir = s.entry (pg_dir / pg_size) in
    if (dir (pde lin)).p then some s else do
      top ← pg_pop s
      let table = top.0 / pg_size
      let e = record (dir (pde lin)) { p = true; sign_phys = table }
      some (pg_new (set_page top.1 (pg_dir / pg_size) (update dir (pde lin) e)) table)

abbrev pub table_of : Pages → (pg_dir lin : ℕ) → ℕ
table_of s pg_dir lin = (s.entry (pg_dir / pg_size) (pde lin)).sign_phys

unfoldable pub pg_map : Pages → (pg_dir phys lin : ℕ) → (us : Bool) → Option Pages
pg_map s pg_dir phys lin us = do
  s' ← with_table s pg_dir lin
  let table = table_of s' pg_dir lin
  let e = record (s'.entry table (pte lin)) { p = true; us = us; sign_phys = phys / pg_size }
  some (set_page s' table (update (s'.entry table) (pte lin) e))

-- Whether one of n entries from j on is present.
unfoldable pub any_present : (ℕ → Entry) → (j n : ℕ) → Bool
any_present table j zero = false
any_present table j (suc n) =
    let rest = any_present table (j + 1) n in if (table j).p then true else rest

unfoldable pub pg_unmap : Pages → (pg_dir lin : ℕ) → Option Pages
pg_unmap s pg_dir lin =
    let dir = s.entry (pg_dir / pg_size) in
    let table = table_of s pg_dir lin in
    let entries =
      update (s.entry table) (pte lin) (record (s.entry table (pte lin)) { p = false }) in
    let s' = set_page s table entries in
    if any_present entries 0 1024 then some s' else do
      s2 ← pg_push s' (table * pg_size)
      some (
          set_page s2 (pg_dir / pg_size)
            (update (s2.entry (pg_dir / pg_size)) (pde lin) (record (dir (pde lin)) { p = false })))

unfoldable pub pg_mapped : Pages → (pg_dir lin : ℕ) → Bool
pg_mapped s pg_dir lin =
    if not (s.entry (pg_dir / pg_size) (pde lin)).p
    then false
    else (s.entry (table_of s pg_dir lin) (pte lin)).p

-- The ends of the four areas, in an address space with `sys_pgs` pages of the system.
unfoldable pub pg_addr : (sys_pgs : ℕ) → (kernel heap bottom : Bool) → ℕ
pg_addr sys_pgs kernel heap bottom =
    if kernel
    then if heap
      then if bottom then sys_pgs * pg_size else 2 ^ 30
      else if bottom
      then 2 ^ 30
      else 2 ^ 31
    else if heap
    then if bottom then 2 ^ 31 else 3 * 2 ^ 30
    else if bottom
    then 3 * 2 ^ 30
    else 2 ^ 32

-- One step of the loop of `pg_next_addr`. The test is written
-- `(descr_lin->pte == heap) ? 1023 : 0`, so it compares with 1 for a heap and with 0 for a stack.
-- The fields of the address are 10 bits wide.
unfoldable pub next_page : (heap : Bool) → (lin : ℕ) → ℕ
next_page heap lin =
    let low = lin % pg_size in
    if pte lin == (if heap then 1 else 0)
    then (if heap then (pde lin + 1) % 1024 else (pde lin + 1023) % 1024) * 2 ^ 22
      + (if heap then 0 else 1023) * 2 ^ 12
      + low
    else pde lin * 2 ^ 22
      + (if heap then (pte lin + 1) % 1024 else (pte lin + 1023) % 1024) * 2 ^ 12
      + low

unfoldable pub next_from : (fuel : ℕ) → Pages → (pg_dir : ℕ) → (heap : Bool) → (lin : ℕ) → Option ℕ
next_from zero s pg_dir heap lin = none
next_from (suc fuel) s pg_dir heap lin =
    let rest = next_from fuel s pg_dir heap (next_page heap lin) in
    if pg_mapped s pg_dir lin then rest else some lin

unfoldable pub pg_next_addr :
    (fuel sys_pgs : ℕ) → Pages → (pg_dir : ℕ) → (kernel heap : Bool) → Option ℕ
pg_next_addr fuel sys_pgs s pg_dir kernel heap = next_from fuel s pg_dir heap (
    if heap then pg_addr sys_pgs kernel true true else pg_addr sys_pgs kernel false false - pg_size)

unfoldable pub pg_alloc :
    (fuel sys_pgs : ℕ) → Pages → (pg_dir : ℕ) → (kernel heap : Bool) → Option (ℕ × Pages)
pg_alloc fuel sys_pgs s pg_dir kernel heap = do
  top ← pg_pop s
  lin ← pg_next_addr fuel sys_pgs top.1 pg_dir kernel heap
  s' ← pg_map top.1 pg_dir top.0 lin (not kernel)
  some (lin, s')

unfoldable pub pg_free : Pages → (pg_dir lin : ℕ) → Option Pages
pg_free s pg_dir lin = do
  let phys = (s.entry (table_of s pg_dir lin) (pte lin)).sign_phys * pg_size
  s' ← pg_unmap s pg_dir lin
  pg_push s' phys
