-- ===== src/Paging/Space.antt =====
-- Address spaces as page directories, and what a new table and a new entry change: the parts of
-- pg_map of src/kernel/paging.c.
use brainix_old.Base.{
  ℕ, ◌/◌, ◌<◌, ◌≡◌, ◌≢◌, refl, sym, ap, ◌∙◌, true, false, ◌&&◌, Option, none, some, List, [], ◌∷◌,
  ltb, ◌==◌, if◌then◌else◌, update, arith, Bool-cases, inl, inr,
}
use brainix_old.Malloc.{pg_size}
use brainix_old.Paging.{Pages, Entry, pg_new, set_page}

abbrev pub page_of : Entry → Option ℕ
page_of e = if e.p then some e.sign_phys else none

-- What the entries a of the directory and b of its table lead to: a page number.
abbrev pub view : Pages → (dir a b : ℕ) → Option ℕ
view s dir a b = let e = s.entry dir a in if e.p then page_of (s.entry e.sign_phys b) else none

-- The page of a directory is none of its tables, and no two of its entries have the same table.
pub record IsSpace (s : Pages) (dir : ℕ) : Type 0 where
  pub apart : (a : ℕ) → (s.entry dir a).p ≡ true → (s.entry dir a).sign_phys ≢ dir
  pub tables :
      (a b : ℕ)
      → (s.entry dir a).p ≡ true
      → (s.entry dir b).p ≡ true
      → (s.entry dir a).sign_phys ≡ (s.entry dir b).sign_phys
      → a ≡ b

-- The page that is handed out next is neither the directory nor one of its tables.
abbrev pub IsFresh : Pages → (dir : ℕ) → List ℕ → Type 0
IsFresh s dir [] = Unit {0}
IsFresh s dir (top ∷ rest) =
    (top / pg_size ≢ dir)
    × ((a : ℕ) → (s.entry dir a).p ≡ true → (s.entry dir a).sign_phys ≢ top / pg_size)

module _ (s : Pages) (dir : ℕ) (v : IsSpace s dir) where
  -- The state in which there is a table for entry k.
  pub record Ready (k : ℕ) (t : Pages) : Type 0 where
    pub space : IsSpace t dir
    pub present : (t.entry dir k).p ≡ true
    pub same : (a b : ℕ) → b < 1024 → view t dir a b ≡ view s dir a b

  -- The state with a new table, on the page `page`.
  abbrev new_table : (k page : ℕ) → Pages → Pages
  new_table k page t =
      pg_new
        (set_page t dir
          (update (t.entry dir) k (record (t.entry dir k) { p = true; sign_phys = page })))
        page

  module _ (k page : ℕ) (rest : List ℕ) (used : List ℕ) (absent : (s.entry dir k).p ≡ false)
      (ne : page ≢ dir)
      (new : (a : ℕ) → (s.entry dir a).p ≡ true → (s.entry dir a).sign_phys ≢ page) where
    abbrev t : Pages
    t = new_table k page (record s { free_pg = rest; used_pg = used })

    dir_entry :
        (a : ℕ)
        → t.entry dir a ≡ (
            if a == k then record (s.entry dir k) { p = true; sign_phys = page } else s.entry dir a)
    unfolding pg_new
    dir_entry a =
        let far : (dir == page) ≡ false = ground arith in
        let here : (dir == dir) ≡ true = ground arith in rw (far, here) refl

    table_entry :
        (q b : ℕ)
        → q ≢ dir
        → b < 1024
        → t.entry q b
          ≡ (if q == page then record { p = false; us = true; sign_phys = 0 } else s.entry q b)
    unfolding pg_new
    table_entry q b f lt =
        let far : (q == dir) ≡ false = ground arith in
        let small : ltb b 1024 ≡ true = ground arith in
        elim (Bool-cases (q == page)) [ inl e ↦ rw (e, small) refl | inr e ↦ rw (e, far) refl ]

    at_k : (a : ℕ) → (a == k) ≡ true → (t.entry dir a).sign_phys ≡ page
    at_k a c = rw (dir_entry a, c) refl

    off_k : (a : ℕ) → (a == k) ≡ false → t.entry dir a ≡ s.entry dir a
    off_k a c = rw (dir_entry a, c) refl

    new_table-IsSpace : IsSpace t dir
    new_table-IsSpace = record {
      apart = λ a h. elim (Bool-cases (a == k)) [
        | inl c ↦ λ z. ne (sym (at_k a c) ∙ z)
        | inr c ↦
            let g = off_k a c in
            λ z. v.apart a (ap (λ x. x.p) (sym g) ∙ h) (ap (λ x. x.sign_phys) (sym g) ∙ z)
      ];
      tables = λ a b h h' q. elim (Bool-cases (a == k)) [
        | inl c ↦ elim (Bool-cases (b == k)) [
          | inl c' ↦ ground arith
          | inr c' ↦
              let g = off_k b c' in
              absurd (
                new b (ap (λ x. x.p) (sym g) ∙ h')
                  (ap (λ x. x.sign_phys) (sym g) ∙ sym q ∙ at_k a c))
        ]
        | inr c ↦
            let g = off_k a c in
            elim (Bool-cases (b == k)) [
              | inl c' ↦ absurd (
                  new a (ap (λ x. x.p) (sym g) ∙ h) (ap (λ x. x.sign_phys) (sym g) ∙ q ∙ at_k b c'))
              | inr c' ↦
                  let g' = off_k b c' in
                  v.tables a b (ap (λ x. x.p) (sym g) ∙ h) (ap (λ x. x.p) (sym g') ∙ h')
                    (ap (λ x. x.sign_phys) (sym g) ∙ q ∙ ap (λ x. x.sign_phys) g')
            ]
      ];
    }

    new_table-view : (a b : ℕ) → b < 1024 → view t dir a b ≡ view s dir a b
    new_table-view a b lt = elim (Bool-cases (a == k)) [
      | inl c ↦
          let e = dir_entry a in
          let same : a ≡ k = ground arith in
          let none_here : (s.entry dir a).p ≡ false = rw same absent in
          let here : (page == page) ≡ true = ground arith in
          rw (e, c, table_entry page b ne lt, here, none_here) refl
      | inr c ↦
          let g = off_k a c in
          elim (Bool-cases (s.entry dir a).p) [
            | inr h ↦ rw (g, h) refl
            | inl h ↦
                let n = new a h in
                let far : ((s.entry dir a).sign_phys == page) ≡ false = ground arith in
                rw (g, table_entry (s.entry dir a).sign_phys b (v.apart a h) lt, far) refl
          ]
    ]

    pub new_table-Ready : Ready k t
    new_table-Ready = record {
      space = new_table-IsSpace;
      present = (let here : (k == k) ≡ true = ground arith in rw (dir_entry k, here) refl);
      same = new_table-view;
    }

  -- Setting an entry of a table.
  module _ (k j : ℕ) (t : Pages) (r : Ready k t) (e : Entry) where
    abbrev table : ℕ
    table = (t.entry dir k).sign_phys

    abbrev u : Pages
    u = set_page t table (update (t.entry table) j e)

    dir_kept : u.entry dir ≡ t.entry dir
    dir_kept =
        let apart = r.space.apart k r.present in
        let far : (dir == table) ≡ false = ground arith in rw far refl

    pub set-IsSpace : IsSpace u dir
    set-IsSpace = record { apart = rw dir_kept r.space.apart; tables = rw dir_kept r.space.tables }

    table_at : (b : ℕ) → u.entry table b ≡ (if b == j then e else t.entry table b)
    table_at b = let here : (table == table) ≡ true = ground arith in rw here refl

    table_off : (q b : ℕ) → q ≢ table → u.entry q b ≡ t.entry q b
    table_off q b f = let far : (q == table) ≡ false = ground arith in rw far refl

    kept_view : (a b : ℕ) → a ≢ k → view u dir a b ≡ view t dir a b
    kept_view a b f =
        let g = ap (λ x. x a) dir_kept in
        elim (Bool-cases (t.entry dir a).p) [
          | inr h ↦ rw (g, h) refl
          | inl h ↦
              rw
                (
                  g,
                  table_off (t.entry dir a).sign_phys b (λ z. f (r.space.tables a k h r.present z)),
                )
                refl
        ]

    table_view : (b : ℕ) → view u dir k b ≡ (if b == j then page_of e else view t dir k b)
    table_view b =
        let g = ap (λ x. x k) dir_kept in
        elim (Bool-cases (b == j)) [
          | inl c ↦ rw (g, table_at b, c, r.present) refl
          | inr c ↦ rw (g, table_at b, c) refl
        ]

    pub set-view :
        (a b : ℕ)
        → b < 1024
        → view u dir a b ≡ (if (a == k) && (b == j) then page_of e else view s dir a b)
    set-view a b lt = elim (Bool-cases (a == k)) [
      | inl c ↦
          let same : a ≡ k = ground arith in
          let here : (k == k) ≡ true = ground arith in
          rw (same, here, table_view b, r.same k b lt) refl
      | inr c ↦ rw c (kept_view a b (ground arith) ∙ r.same a b lt)
    ]

  pub has_table : (k : ℕ) → (s.entry dir k).p ≡ true → Ready k s
  has_table k h = record { space = v; present = h; same = λ a b lt. refl }
