-- ===== src/Server/Users.antt =====
-- The users of inodes when a path is looked up and an inode is put, in the file system's state:
-- what the system calls of src/fs share.
use brainix_old.Base.{
  ℕ, ◌+◌, ◌-◌, ◌<◌, ◌≡◌, ◌≢◌, ◌⊎◌, inl, inr, refl, ◌∙◌, true, false, some, ◌==◌, arith,
  if◌then◌else◌, ◌>>=◌, Bool-cases, Whenever, Whenever-bind, Whenever-mono,
}
use brainix_old.Inode.{Fs, Inode, inode_put}
use brainix_old.Inode.Uses.{uses, inode_put-uses}
use brainix_old.Path.{Text, Lookup, found, missing, i_links_count, path_to_inode}
use brainix_old.Path.Counts.{Ended, path_to_inode-Ended}
use brainix_old.Server.{set_err, Env, State, look_up, put, refuse, noted, with_inode, minus}

module _ {Dev : Type 0} (e : Env Dev) where
  abbrev pub users : State Dev → ℕ → ℕ
  users s = uses s.fs

  -- The directories that the caller starts at are in use, and have links.
  abbrev pub Rooted : State Dev → Type 0
  Rooted s =
      (k : ℕ)
      → (s.files.root_dir e.from ≡ some k) ⊎ (s.files.work_dir e.from ≡ some k)
      → (users s k ≢ 0) × (i_links_count (s.fs.inode k) ≢ 0)

  -- As many users as n says, and the same open files and directories.
  pub record Level (s : State Dev) (n : ℕ → ℕ) (t : State Dev) : Type 0 where
    pub count : (j : ℕ) → users t j ≡ n j
    pub files : t.files ≡ s.files

  -- With one user more of the inode in slot k.
  abbrev pub plus : (ℕ → ℕ) → ℕ → ℕ → ℕ
  plus n k j = if j == k then n j + 1 else n j

  -- What comes of looking a path up.
  abbrev pub Looked : (s : State Dev) → Lookup × State Dev → Type 0
  Looked s (found k, t) =
      Level s (plus (users s) k) t
      × ((j : ℕ) → users s j ≢ 0 → (t.fs.inode j).raw ≡ (s.fs.inode j).raw)
  Looked s (missing err, t) =
      Level s (users s) t × ((j : ℕ) → users s j ≢ 0 → (t.fs.inode j).raw ≡ (s.fs.inode j).raw)

  Looked-noted :
      (s : State Dev) (few : (j : ℕ) → users s j < 255) (r : Lookup × Fs Dev)
      → Ended e.dev_rw e.now e.deep e.entries e.memory s.fs few r
      → Looked s (r.0, noted e s r.0 r.1)
  Looked-noted s few (found k, t) h = (record { count = λ j. (h j).0; files = refl }, λ j. (h j).1)
  Looked-noted s few (missing err, t) h =
      (record { count = λ j. (h j).0; files = refl }, λ j. (h j).1)

  pub look_up-Looked :
      (s : State Dev) (path : Text)
      → ((j : ℕ) → users s j < 255)
      → Rooted s
      → Whenever (Looked s) (look_up e s path)
  unfolding look_up
  look_up-Looked s path few rooted =
      Whenever-bind (Ended e.dev_rw e.now e.deep e.entries e.memory s.fs few) (Looked s)
        (path_to_inode e.dev_rw e.now e.deep e.entries e.memory e.procs e.from e.super_user
          s.files.root_dir s.files.work_dir s.fs path)
        _
        (path_to_inode-Ended e.dev_rw e.now e.deep e.entries e.memory e.procs e.from e.super_user
          s.files.root_dir s.files.work_dir s.fs path few (λ k at. (rooted k at).1))
        (Looked-noted s few)

  pub inode_put-Level :
      (s : State Dev) (n : ℕ → ℕ) (k : ℕ) (t : State Dev)
      → ((j : ℕ) → n j < 255)
      → Level s (plus n k) t
      → Whenever (λ f. Level s n (record t { fs = f })) (inode_put e.dev_rw e.now t.fs (some k))
  inode_put-Level s n k t few h =
      let eq : (k == k) ≡ true = ground arith in
      let here : users t k ≡ n k + 1 = h.count k ∙ rw eq refl in
      let lt = few k in
      Whenever-mono (λ f. (j : ℕ) → uses f j ≡ (if j == k then users t k - 1 else users t j))
        (λ f. Level s n (record t { fs = f })) (inode_put e.dev_rw e.now t.fs (some k))
        (inode_put-uses e.dev_rw e.now t.fs k (omega arith) (omega arith) others)
        λ f g. record { count = λ j. one_less f g j; files = h.files }
    where
      one_less :
          (f : Fs Dev)
          → ((j : ℕ) → uses f j ≡ (if j == k then users t k - 1 else users t j))
          → (j : ℕ) → uses f j ≡ n j
      one_less f g j = elim (Bool-cases (j == k)) [
        | inl c ↦
            let same : j ≡ k = ground arith in
            rw (g j, c, h.count k, same)
              (let eq : (k == k) ≡ true = ground arith in rw eq (omega arith))
        | inr c ↦ rw (g j, c, h.count j) (rw c refl)
      ]

      others : (j : ℕ) → j ≢ k → users t j < 255
      others j ne =
          let far : (j == k) ≡ false = ground arith in
          let at : users t j ≡ n j = h.count j ∙ rw far refl in let lt = few j in omega arith

  pub put-Level :
      (s : State Dev) (n : ℕ → ℕ) (k : ℕ) (t : State Dev)
      → ((j : ℕ) → n j < 255)
      → Level s (plus n k) t
      → Whenever (Level s n) (put e t (some k))
  unfolding put
  put-Level s n k t few h =
      Whenever-bind (λ f. Level s n (record t { fs = f })) (Level s n)
        (inode_put e.dev_rw e.now t.fs (some k)) _ (inode_put-Level s n k t few h) λ f l. l

  -- A result and a state, in which the users are those that n says.
  abbrev pub After {ℓ} : {A : Type ℓ} → State Dev → (ℕ → ℕ) → A × State Dev → Type 0
  After s n r = Level s n r.1

  pub put_then {ℓ} :
      {A : Type ℓ} (s : State Dev) (n : ℕ → ℕ) (k : ℕ) (t : State Dev)
      (f : State Dev → A × State Dev)
      → ((j : ℕ) → n j < 255)
      → Level s (plus n k) t
      → ((w : State Dev) → Level s n w → Level s n (f w).1)
      → Whenever (After s n) (put e t (some k) >>= λ w. some (f w))
  put_then s n k t f few h keep =
      Whenever-bind (Level s n) (After s n) (put e t (some k)) (λ w. some (f w))
        (put-Level s n k t few h) keep

  pub Level-err :
      (s : State Dev) (n : ℕ → ℕ) (err : ℕ) (t : State Dev)
      → Level s n t
      → Level s n (set_err t err)
  Level-err s n err t h = record { count = h.count; files = h.files }

  pub Level-inode :
      (s : State Dev) (n : ℕ → ℕ) (k : ℕ) (i : Inode) (t : State Dev)
      → i.count ≡ users t k
      → Level s n t
      → Level s n (with_inode e t k i)
  Level-inode s n k i t same h = record {
    count = λ j. elim (Bool-cases (j == k)) [
      | inl c ↦ let at : j ≡ k = ground arith in rw (uses, c) (same ∙ rw at (h.count k))
      | inr c ↦ rw (uses, c) (h.count j)
    ];
    files = h.files;
  }

  pub refuse-After :
      (s : State Dev) (n : ℕ → ℕ) (k err : ℕ) (t : State Dev)
      → ((j : ℕ) → n j < 255)
      → Level s (plus n k) t
      → Whenever (After s n) (refuse e t (some k) err)
  refuse-After s n k err t few h =
      put_then s n k t (λ w. (minus err, set_err w err)) few h (Level-err s n err)
