-- ===== src/Path/Search.antt =====
-- The entries of a directory's block: search_block of src/fs/search.c.
use brainix_old.Base.{
  ℕ, zero, suc, ◌+◌, ◌≤◌, ◌≡◌, ◌≢◌, refl, ◌∙◌, Bool, true, false, ◌&&◌, some, List, [], ◌∷◌, length,
  ltb, ◌==◌, arith, if◌then◌else◌, Bool-cases, inl, inr,
}
use brainix_old.Block.{cached_size}
use brainix_old.Inode.{Bytes, half, word}
use brainix_old.Path.{Text, begins, entry_ino, search_entries}

abbrev pub same_text : Text → Text → Bool
same_text [] [] = true
same_text [] (d ∷ ds) = false
same_text (c ∷ cs) [] = false
same_text (c ∷ cs) (d ∷ ds) = (c == d) && same_text cs ds

-- An entry of a directory: the length of its name, the address where its name stands, and its inode
-- number.
pub record DirEntry : Type 0 where
  pub name_len : ℕ
  pub name : ℕ
  pub inode : ℕ

abbrev no_entries : List DirEntry → Bool
no_entries [] = true
no_entries (e ∷ es) = false

module _ (memory b : Bytes) where
  -- The memory at the entry's address begins with the name, and the lengths are the same.
  abbrev pub has_name : DirEntry → Text → Bool
  has_name e name = (e.name_len == length name) && begins memory e.name name

  -- The inode number beside the first entry with the name, or 0.
  abbrev pub ino_of : Text → List DirEntry → ℕ
  ino_of name [] = 0
  ino_of name (e ∷ es) = if has_name e name then e.inode else ino_of name es

  -- The entry is the one at `at`, and has an inode.
  pub record IsEntry (at : ℕ) (e : DirEntry) : Type 0 where
    pub fits : at + 12 ≤ cached_size
    pub len : b (at + 6) ≡ e.name_len
    pub named : word b (at + 8) ≡ e.name
    pub number : word b at ≡ e.inode
    pub used : e.inode ≢ 0

  -- The entries from `at` on, up to one that has no inode.
  abbrev pub Listed : (at : ℕ) → List DirEntry → Type 0
  Listed at [] = (at + 12 ≤ cached_size) × (word b at ≡ 0)
  Listed at (e ∷ es) = IsEntry at e × Listed (at + half b (at + 4)) es

  entry_ino_lem :
      (at : ℕ) (name : Text) (e : DirEntry)
      → IsEntry at e
      → entry_ino memory b at name ≡ (if has_name e name then e.inode else 0)
  entry_ino_lem at name e i = rw (i.len, i.named, i.number) refl

  -- What comes next fits, and is the end or not.
  next_fits : (at : ℕ) (es : List DirEntry) → Listed at es → ltb cached_size (at + 12) ≡ false
  next_fits at [] l = ground arith
  next_fits at (e ∷ es) l = let f = l.0.fits in ground arith

  next_used : (at : ℕ) (es : List DirEntry) → Listed at es → (word b at == 0) ≡ no_entries es
  next_used at [] l = ground arith
  next_used at (e ∷ es) l = let n = l.0.number in let u = l.0.used in ground arith

  -- In a block whose entries follow each other up to one without an inode, the search finds the
  -- inode number of the first entry that has the name, or 0 if there is none; it needs no more rounds
  -- than there are entries. An entry has the name if it has its length, and the name stands in the
  -- kernel's memory at the address that the entry holds, as `dir_entry_t` declares it. The name's own
  -- characters, which an entry of ext2 holds there instead, are taken for that address.
  pub search_entries_lem :
      (entries at : ℕ) (name : Text) (e : DirEntry) (es : List DirEntry)
      → Listed at (e ∷ es)
      → length (e ∷ es) ≤ entries
      → search_entries entries memory b at name ≡ some (ino_of name (e ∷ es))
  unfolding search_entries
  search_entries_lem zero at name e es l h = absurd (omega arith)
  search_entries_lem (suc entries) at name e es l h =
      let fits = next_fits at (e ∷ es) l in
      let here = entry_ino_lem at name e l.0 in
      let used = l.0.used in
      elim (Bool-cases (has_name e name)) [
        | inl same ↦
            let got : entry_ino memory b at name ≡ e.inode = here ∙ rw same refl in
            let no : (e.inode == 0) ≡ false = ground arith in rw (fits, got, no, same) refl
        | inr other_name ↦
            let got : entry_ino memory b at name ≡ 0 = here ∙ rw other_name refl in
            rw (fits, got, next_fits (at + half b (at + 4)) es l.1, other_name)
              (on es l.1
                (λ e' es' l' h'.
                  search_entries_lem entries (at + half b (at + 4)) name e' es' l' h')
                (omega arith))
      ]
    where
      on :
          (es : List DirEntry)
          → Listed (at + half b (at + 4)) es
          → ((e : DirEntry) (es : List DirEntry)
              → Listed (at + half b (at + 4)) (e ∷ es)
              → length (e ∷ es) ≤ entries
              → search_entries entries memory b (at + half b (at + 4)) name
                ≡ some (ino_of name (e ∷ es)))
          → length es ≤ entries
          → (if word b (at + half b (at + 4)) == 0
              then some 0
              else search_entries entries memory b (at + half b (at + 4)) name)
            ≡ some (ino_of name es)
      on [] l again h = rw (next_used (at + half b (at + 4)) [] l) refl
      on (e ∷ es) l again h = rw (next_used (at + half b (at + 4)) (e ∷ es) l) (again e es l h)
