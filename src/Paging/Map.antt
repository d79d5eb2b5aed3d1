-- ===== src/Paging/Map.antt =====
-- Mapping a page: pg_map of src/kernel/paging.c.
use brainix_old.Base.{
  ℕ, ◌/◌, ◌<◌, ◌≡◌, refl, Bool, true, false, ◌&&◌, Option, none, some, List, [], ◌∷◌, ◌==◌,
  if◌then◌else◌, update, Bool-cases, inl, inr,
}
use brainix_old.Malloc.{pg_size}
use brainix_old.Paging.{Pages, Entry, pde, pte, pg_pop, set_page, with_table, table_of, pg_map}
use brainix_old.Paging.Space.{
  view, IsSpace, IsFresh, Ready, new_table-Ready, set-IsSpace, set-view, has_table,
}

-- The address space after a page has been mapped, or unmapped.
pub record Mapped (s t : Pages) (dir a b : ℕ) (page : Option ℕ) : Type 0 where
  pub space : IsSpace t dir
  pub pages :
      (i j : ℕ)
      → j < 1024
      → view t dir i j ≡ (if (i == a) && (j == b) then page else view s dir i j)

pg_pop-none : (s : Pages) → s.free_pg ≡ [] → pg_pop s ≡ none
unfolding pg_pop
pg_pop-none s e = rw e refl

pg_pop-some :
    (s : Pages) (top : ℕ) (rest : List ℕ)
    → s.free_pg ≡ top ∷ rest
    → pg_pop s ≡ some (top, record s { free_pg = rest; used_pg = top ∷ s.used_pg })
unfolding pg_pop
pg_pop-some s top rest e = rw e refl

pub Outcome : (s : Pages) (pg_dir phys lin : ℕ) → Option Pages → Type 0
Outcome s pg_dir phys lin none = s.free_pg ≡ []
Outcome s pg_dir phys lin (some t) =
    Mapped s t (pg_dir / pg_size) (pde lin) (pte lin) (some (phys / pg_size))

module _ (s : Pages) (pg_dir phys lin : ℕ) (us : Bool) (v : IsSpace s (pg_dir / pg_size)) where
  entry_set :
      (t : Pages)
      → Ready s (pg_dir / pg_size) v (pde lin) t
      → let e = record (t.entry (table_of t pg_dir lin) (pte lin)) {
        p = true;
        us = us;
        sign_phys = phys / pg_size;
      } in
        Mapped s
          (set_page t
            (table_of t pg_dir lin)
            (update (t.entry (table_of t pg_dir lin)) (pte lin) e))
          (pg_dir / pg_size)
          (pde lin)
          (pte lin)
          (some (phys / pg_size))
  entry_set t r =
      let e : Entry = record (t.entry (table_of t pg_dir lin) (pte lin)) {
        p = true;
        us = us;
        sign_phys = phys / pg_size;
      } in
      record {
        space = set-IsSpace s (pg_dir / pg_size) v (pde lin) (pte lin) t r e;
        pages = set-view s (pg_dir / pg_size) v (pde lin) (pte lin) t r e;
      }

  popped :
      (xs : List ℕ)
      → s.free_pg ≡ xs
      → IsFresh s (pg_dir / pg_size) xs
      → (s.entry (pg_dir / pg_size) (pde lin)).p ≡ false
      → Outcome s pg_dir phys lin (pg_map s pg_dir phys lin us)
  unfolding Outcome pg_map with_table
  popped [] e f h = rw (h, pg_pop-none s e) e
  popped (top ∷ rest) e f h =
      rw (h, pg_pop-some s top rest e)
        (entry_set _ (
          new_table-Ready s (pg_dir / pg_size) v (pde lin) (top / pg_size) rest (top ∷ s.used_pg) h
            f.0 f.1))

  -- In an address space whose tables are distinct pages, and where the next free page is none of
  -- them, mapping a page makes its address lead to it, with a new table if there was none, and
  -- leaves what every other address leads to; the tables stay distinct. It fails only if there is
  -- no free page.
  pub pg_map_lem :
      IsFresh s (pg_dir / pg_size) s.free_pg
      → Outcome s pg_dir phys lin (pg_map s pg_dir phys lin us)
  unfolding Outcome pg_map with_table
  pg_map_lem fresh = elim (Bool-cases (s.entry (pg_dir / pg_size) (pde lin)).p) [
    | inl h ↦ rw h (entry_set s (has_table s (pg_dir / pg_size) v (pde lin) h))
    | inr h ↦ popped s.free_pg refl fresh h
  ]
