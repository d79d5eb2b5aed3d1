-- ===== src/Malloc/Tests.antt =====
-- A heap of one page at 8192, and the theorems of the allocator on it.
use brainix_old.Base.{
  ℕ, ◌+◌, ◌≡◌, ◌==◌, refl, true, ◌&&◌, not, Option, some, List, [], ◌∷◌, arith, if◌then◌else◌,
}
use brainix_old.Malloc.{Heap, header, new_pages, pages_for, common_free}
use brainix_old.Malloc.Tiling.{Slabs}
use brainix_old.Malloc.Free.{in_use, common_free_lem}

-- Pages follow each other, and the state is the address of the next one.
abbrev next_addr : ℕ → ℕ
next_addr s = s

abbrev new_page : ℕ → Option ℕ
new_page s = some (s + 4096)

-- 100 bytes are in use.
abbrev heap : Heap ℕ
heap = record {
  used = λ k. k == 8192;
  size = λ k. if k == 8192 then 100 else 3970;
  links = record {
    next = λ k. if k == 8192 then 8305 else 8192;
    prev = λ k. if k == 8192 then 8305 else 8192;
  };
  pages = 12288;
}

heap_tiled : Slabs heap 8192 8192 (8305 ∷ []) 12288
heap_tiled = omega arith

room : new_pages new_page (pages_for 5000) 12288 ≡ (true, 20480)
unfolding new_pages
room = refl

common_free_lem_example :
    let h' = common_free 8192 heap (8192 + header) in
    (ys : List ℕ) × Slabs h' 8192 8192 ys 12288
    × ((k : ℕ) → in_use h' 8192 ys k ≡ (in_use heap 8192 (8305 ∷ []) k && not (k == 8192)))
    × ((k : ℕ) → in_use h' 8192 ys k ≡ true → h'.size k ≡ heap.size k)
common_free_lem_example = common_free_lem 8192 12288 heap 8192 (8305 ∷ []) heap_tiled refl
