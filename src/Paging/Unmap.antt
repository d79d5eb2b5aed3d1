-- ===== src/Paging/Unmap.antt =====
-- Unmapping a page: pg_unmap of src/kernel/paging.c.
use brainix_old.Base.{
  ℕ, zero, suc, ◌+◌, ◌/◌, ◌*◌, ◌<◌, ◌≡◌, refl, sym, ap, ◌∙◌, true, false, Option, List, none, some,
  ◌==◌, if◌then◌else◌, update, mem, arith, Bool-cases, inl, inr,
}
use mathlib.Core.Path.{subst}
use brainix_old.Malloc.{pg_size}
use brainix_old.Paging.{Pages, Entry, pde, pte, pg_push, set_page, table_of, any_present, pg_unmap}
use brainix_old.Paging.Space.{view, IsSpace, set-IsSpace, set-view, has_table}
use brainix_old.Paging.Map.{Mapped}

any_present-none :
    (table : ℕ → Entry) (j n i : ℕ)
    → any_present table j n ≡ false
    → i < n
    → (table (j + i)).p ≡ false
unfolding any_present
any_present-none table j zero i h lt = absurd (ground arith)
any_present-none table j (suc n) zero h lt = elim (Bool-cases (table j).p) [
  | inl c ↦ let e : any_present table j (suc n) ≡ true = rw c refl in absurd (ground arith)
  | inr c ↦ ap (λ i. (table i).p) (omega arith) ∙ c
]
any_present-none table j (suc n) (suc i) h lt = elim (Bool-cases (table j).p) [
  | inl c ↦ let e : any_present table j (suc n) ≡ true = rw c refl in absurd (ground arith)
  | inr c ↦
      let rest : any_present table j (suc n) ≡ any_present table (j + 1) n = rw c refl in
      let at : j + suc i ≡ j + 1 + i = omega arith in
      rw at (any_present-none table (j + 1) n i (sym rest ∙ h) (omega arith))
]

-- Taking a table without entries out of the directory.
module _ (s : Pages) (dir : ℕ) (v : IsSpace s dir) (k : ℕ)
    (empty : (b : ℕ) → b < 1024 → view s dir k b ≡ none) where
  abbrev t : Pages
  t = set_page s dir (update (s.entry dir) k (record (s.entry dir k) { p = false }))

  dir_entry :
      (a : ℕ)
      → t.entry dir a ≡ (if a == k then record (s.entry dir k) { p = false } else s.entry dir a)
  dir_entry a = let here : (dir == dir) ≡ true = ground arith in rw here refl

  was : (a : ℕ) → (t.entry dir a).p ≡ true → t.entry dir a ≡ s.entry dir a
  was a h = elim (Bool-cases (a == k)) [
    | inl c ↦ let e : (t.entry dir a).p ≡ false = rw (dir_entry a, c) refl in absurd (ground arith)
    | inr c ↦ rw (dir_entry a, c) refl
  ]

  unlink-IsSpace : IsSpace t dir
  unlink-IsSpace = record {
    apart = λ a h.
        let g = was a h in
        λ z. v.apart a (ap (λ x. x.p) (sym g) ∙ h) (ap (λ x. x.sign_phys) (sym g) ∙ z);
    tables = λ a b h h' q.
        let g = was a h in
        let g' = was b h' in
        v.tables a b (ap (λ x. x.p) (sym g) ∙ h) (ap (λ x. x.p) (sym g') ∙ h')
          (ap (λ x. x.sign_phys) (sym g) ∙ q ∙ ap (λ x. x.sign_phys) g');
  }

  unlink-view : (a b : ℕ) → b < 1024 → view t dir a b ≡ view s dir a b
  unlink-view a b lt = elim (Bool-cases (a == k)) [
    | inl c ↦ let same : a ≡ k = ground arith in rw (dir_entry a, c) (sym (rw same (empty b lt)))
    | inr c ↦
        let g : t.entry dir a ≡ s.entry dir a = rw (dir_entry a, c) refl in
        elim (Bool-cases (s.entry dir a).p) [
          | inr h ↦ rw (g, h) refl
          | inl h ↦
              let apart = v.apart a h in
              let far : ((s.entry dir a).sign_phys == dir) ≡ false = ground arith in
              rw (g, far) refl
        ]
  ]

-- What pg_unmap does to its address space; without a result, the emptied table is no used page.
pub Unmapped : (s : Pages) (pg_dir lin : ℕ) → Option Pages → Type 0
Unmapped s pg_dir lin none = mem (table_of s pg_dir lin * pg_size) s.used_pg ≡ false
Unmapped s pg_dir lin (some t) = Mapped s t (pg_dir / pg_size) (pde lin) (pte lin) none

module _ (s : Pages) (pg_dir lin : ℕ) (v : IsSpace s (pg_dir / pg_size))
    (h : (s.entry (pg_dir / pg_size) (pde lin)).p ≡ true) where
  abbrev dir : ℕ
  dir = pg_dir / pg_size

  abbrev table : ℕ
  table = table_of s pg_dir lin

  abbrev off : Entry
  off = record (s.entry table (pte lin)) { p = false }

  abbrev u : Pages
  u = set_page s table (update (s.entry table) (pte lin) off)

  cleared : Mapped s u dir (pde lin) (pte lin) none
  cleared = record {
    space = set-IsSpace s dir v (pde lin) (pte lin) s (has_table s dir v (pde lin) h) off;
    pages = set-view s dir v (pde lin) (pte lin) s (has_table s dir v (pde lin) h) off;
  }

  dir_kept : u.entry dir ≡ s.entry dir
  dir_kept =
      let apart = v.apart (pde lin) h in
      let far : (dir == table) ≡ false = ground arith in rw far refl

  emptied :
      any_present (update (s.entry table) (pte lin) off) 0 1024 ≡ false
      → (b : ℕ) → b < 1024
      → view u dir (pde lin) b ≡ none
  emptied e b lt =
      let zero_plus : b ≡ 0 + b = omega arith in
      let g : (update (s.entry table) (pte lin) off b).p ≡ false =
        ap (λ i. (update (s.entry table) (pte lin) off i).p) zero_plus
        ∙ any_present-none (update (s.entry table) (pte lin) off) 0 1024 b e lt in
      let here : (table == table) ≡ true = ground arith in rw (dir_kept, h, here, g) refl

  unlinked :
      (free used : List ℕ)
      → any_present (update (s.entry table) (pte lin) off) 0 1024 ≡ false
      → Mapped s
          (set_page
            (record u { free_pg = free; used_pg = used })
            dir
            (update (u.entry dir) (pde lin) (record (s.entry dir (pde lin)) { p = false })))
          dir
          (pde lin)
          (pte lin)
          none
  unlinked free used e =
      let w : Pages = record u { free_pg = free; used_pg = used } in
      let vw : IsSpace w dir = record {
        apart = cleared.space.apart;
        tables = cleared.space.tables;
      } in
      subst
        (λ x.
          Mapped s (set_page w dir (update (w.entry dir) (pde lin) (record x { p = false }))) dir
            (pde lin) (pte lin) none)
        (ap (λ x. x (pde lin)) dir_kept)
        (record {
          space = unlink-IsSpace w dir vw (pde lin) (emptied e);
          pages =
              λ i j lt. unlink-view w dir vw (pde lin) (emptied e) i j lt ∙ cleared.pages i j lt;
        })

  -- In an address space whose tables are distinct pages, unmapping an address that has a table
  -- makes it lead to no page and leaves what every other address leads to, also if the table is
  -- empty then and its page is pushed back; the tables stay distinct. It fails only if that page
  -- is not among the used ones.
  pub pg_unmap_lem : Unmapped s pg_dir lin (pg_unmap s pg_dir lin)
  unfolding Unmapped pg_unmap pg_push
  pg_unmap_lem = elim (Bool-cases (any_present (update (s.entry table) (pte lin) off) 0 1024)) [
    | inl c ↦ rw c cleared
    | inr c ↦ elim (Bool-cases (mem (table * pg_size) s.used_pg)) [
      | inl m ↦ rw (c, m) (unlinked _ _ c)
      | inr m ↦ rw (c, m) m
    ]
  ]
