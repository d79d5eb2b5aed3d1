-- ===== src/Path/Components.antt =====
-- The loop of path_to_inode (src/fs/path.c) against the components of the path.
use mathlib.Core.List.{append_assoc}
use brainix_old.Base.{
  ℕ, zero, suc, ◌+◌, ◌≤◌, ◌<◌, ◌≡◌, ◌≢◌, refl, sym, ap, ◌∙◌, Bool, true, false, not, Option, none,
  some, List, [], ◌∷◌, ◌++◌, length, length-append, leb, ◌==◌, arith, if◌then◌else◌, ◌>>=◌,
  Bool-cases, Option-cases, inl, inr,
}
use brainix_old.Block.{DevRw}
use brainix_old.Process.{Procs}
use brainix_old.Inode.{Fs, Bytes}
use brainix_old.Path.{
  Text, slash, name_max, path_max, enametoolong, i_links_count, Lookup, found, missing, Place,
  by_place, into, stop, starts_slash, skip_slashes, take_name, fail_at, enter, walk, one_more,
  walk_from, path_to_inode,
}

-- A character before the first of some components.
abbrev pub put_before : ℕ → List (Text × Bool) → List (Text × Bool)
put_before c [] = (c ∷ [], false) ∷ []
put_before c ((w, trailing) ∷ ws) = (c ∷ w, trailing) ∷ ws

-- The components of a path, each with whether a slash trails it.
unfoldable pub components : Text → List (Text × Bool)
components [] = []
components (c ∷ cs) =
    let rest = components cs in
    if c == slash
    then rest
    else if starts_slash cs
    then (c ∷ [], true) ∷ rest
    else put_before c rest

components-slash : (c : ℕ) (cs : Text) → (c == slash) ≡ true → components (c ∷ cs) ≡ components cs
unfolding components
components-slash c cs e = rw e refl

components-alone :
    (c : ℕ) (cs : Text)
    → (c == slash) ≡ false
    → starts_slash cs ≡ true
    → components (c ∷ cs) ≡ (c ∷ [], true) ∷ components cs
unfolding components
components-alone c cs e h = rw (e, h) refl

components-longer :
    (c : ℕ) (cs : Text)
    → (c == slash) ≡ false
    → starts_slash cs ≡ false
    → components (c ∷ cs) ≡ put_before c (components cs)
unfolding components
components-longer c cs e h = rw (e, h) refl

components-skip : (path : Text) → components (skip_slashes path) ≡ components path
unfolding skip_slashes
components-skip [] = refl
components-skip (c ∷ cs) = elim (Bool-cases (c == slash)) [
  | inl e ↦ rw e (components-skip cs ∙ sym (components-slash c cs e))
  | inr e ↦ rw e refl
]

skip-length : (path : Text) → length (skip_slashes path) ≤ length path
unfolding skip_slashes
skip-length [] = omega arith
skip-length (c ∷ cs) = ground (arith, skip-length cs)

skip-starts : (path : Text) → starts_slash (skip_slashes path) ≡ false
unfolding skip_slashes starts_slash
skip-starts [] = refl
skip-starts (c ∷ cs) = elim (Bool-cases (c == slash)) [
  | inl e ↦ rw e (skip-starts cs)
  | inr e ↦ rw e e
]

-- The first component of a path, and what `take_name` does with it.
record First (path : Text) : Type 0 where
  head : Text
  rest : Text
  parts : components path ≡ (head, starts_slash rest) ∷ components rest
  shorter : length rest < length path
  taken :
      (name : Text)
      → length name < name_max
      → take_name name path
        ≡ (if leb name_max (length (name ++ head)) then none else some (name ++ head, rest))

-- A component of one character, at the end of the path or before a slash.
taken_one :
    (c : ℕ) (rest name : Text)
    → (c == slash) ≡ false
    → take_name (name ++ c ∷ []) rest ≡ some (name ++ c ∷ [], rest)
    → length name < name_max
    → take_name name (c ∷ rest)
      ≡ (if leb name_max (length (name ++ c ∷ [])) then none else some (name ++ c ∷ [], rest))
unfolding take_name
taken_one c rest name e stops h =
    let len = length-append name (c ∷ []) in
    elim (Bool-cases (length (name ++ c ∷ []) == name_max)) [
      | inl full ↦
          let over : leb name_max (length (name ++ c ∷ [])) ≡ true = ground arith in
          rw (e, full, over) refl
      | inr room ↦
          let under : leb name_max (length (name ++ c ∷ [])) ≡ false = ground arith in
          rw (e, room, under) stops
    ]

taken_more :
    (c : ℕ) (cs word rest name : Text)
    → (c == slash) ≡ false
    → ((name : Text)
        → length name < name_max
        → take_name name cs
          ≡ (if leb name_max (length (name ++ word)) then none else some (name ++ word, rest)))
    → length name < name_max
    → take_name name (c ∷ cs)
      ≡ (if leb name_max (length (name ++ c ∷ word)) then none else some (name ++ c ∷ word, rest))
unfolding take_name
taken_more c cs word rest name e more h =
    let len = length-append name (c ∷ []) in
    let len' = length-append name (c ∷ word) in
    elim (Bool-cases (length (name ++ c ∷ []) == name_max)) [
      | inl full ↦
          let over : leb name_max (length (name ++ c ∷ word)) ≡ true = ground arith in
          rw (e, full, over) refl
      | inr room ↦
          rw (e, room)
            (more (name ++ c ∷ []) (ground arith)
              ∙ ap (λ (n : Text). if leb name_max (length n) then none else some (n, rest))
                  (append_assoc name (c ∷ []) word))
    ]

take-First : (c : ℕ) (cs : Text) → (c == slash) ≡ false → First (c ∷ cs)
unfolding take_name starts_slash components
take-First c [] e = record {
  head = c ∷ [];
  rest = [];
  parts = components-longer c [] e refl;
  shorter = omega arith;
  taken = λ name h. taken_one c [] name e refl h;
}
take-First c (d ∷ cs) e = elim (Bool-cases (d == slash)) [
  | inl f ↦ record {
    head = c ∷ [];
    rest = d ∷ cs;
    parts = components-alone c (d ∷ cs) e f ∙ rw f refl;
    shorter = omega arith;
    taken = λ name h. taken_one c (d ∷ cs) name e (rw f refl) h;
  }
  | inr f ↦
      let first = take-First d cs f in
      record {
        head = c ∷ first.head;
        rest = first.rest;
        parts = components-longer c (d ∷ cs) e f ∙ ap (put_before c) first.parts;
        shorter = (let sh = first.shorter in omega arith);
        taken = λ name h. taken_more c (d ∷ cs) first.head first.rest name e first.taken h;
      }
]

module _ {Dev : Type 0} (dev_rw : DevRw Dev Bytes) (now deep entries : ℕ) (memory : Bytes)
    (procs : Procs) (from : ℕ) (super_user : Bool) where
  -- The components of a path entered one after the other while err_code is 0; `name` is what the names so far come to.
  unfoldable pub follow :
      Fs Dev → (k dev links : ℕ) → (name : Text) → List (Text × Bool) → Option (Lookup × Fs Dev)
  follow s k dev links name [] = some (found k, s)
  follow s k dev links name ((word, trailing) ∷ rest) =
      if not (s.cache.err_code == 0)
      then some (found k, s)
      else if leb name_max (length (name ++ word))
      then fail_at dev_rw now deep entries memory s k enametoolong
      else do
        r ←
            enter dev_rw now deep entries memory procs from super_user s k dev links (name ++ word)
              trailing
        by_place r.0 (λ err. some (missing err, r.1))
            λ k' dev' links'. follow r.1 k' dev' links' (name ++ word) rest

  abbrev along : (fuel : ℕ) → Fs Dev → (k dev links : ℕ) → Text → Text → Option (Lookup × Fs Dev)
  along = walk dev_rw now deep entries memory procs from super_user

  abbrev go_in : Fs Dev → (k dev links : ℕ) → Text → Bool → Option (Place × Fs Dev)
  go_in = enter dev_rw now deep entries memory procs from super_user

  walk-follow :
      (fuel : ℕ) (s : Fs Dev) (k dev links : ℕ) (name path : Text)
      → length path ≤ fuel
      → length name < name_max
      → starts_slash path ≡ false
      → along fuel s k dev links name path ≡ follow s k dev links name (components path)
  unfolding walk follow starts_slash components
  walk-follow fuel s k dev links name [] h n e = refl
  walk-follow zero s k dev links name (c ∷ cs) h n e = absurd (omega arith)
  walk-follow (suc fuel) s k dev links name (c ∷ cs) h n e =
      let first = take-First c cs e in
      let sh = first.shorter in
      elim (Bool-cases (s.cache.err_code == 0)) [
        | inr failed ↦ rw (first.parts, failed) refl
        | inl fine ↦ (elim (Bool-cases (leb name_max (length (name ++ first.head)))) [
          | inl long ↦ rw (first.taken name n, first.parts, fine, long) refl
          | inr fits ↦
              elim (Option-cases
                (go_in s k dev links (name ++ first.head) (starts_slash first.rest))) [
                  | inl none_there ↦
                      rw (first.taken name n, first.parts, fine, fits, none_there) refl
                  | inr ((stop err, t), at) ↦
                      rw (first.taken name n, first.parts, fine, fits, at) refl
                  | inr ((into k' dev' links', t), at) ↦
                      rw (first.taken name n, first.parts, fine, fits, at)
                        (walk-follow fuel t k' dev' links' (name ++ first.head)
                            (skip_slashes first.rest)
                            (let le = skip-length first.rest in omega arith) (ground arith)
                            (skip-starts first.rest)
                          ∙ ap (follow t k' dev' links' (name ++ first.head))
                              (components-skip first.rest))
                ]
        ])
      ]

  -- The directory that a path starts at.
  abbrev pub start : (root work : ℕ → Option ℕ) → Text → Option ℕ
  start root work path = if starts_slash path then root from else work from

  walk_from-follow :
      (s : Fs Dev) (k : ℕ) (path : Text)
      → starts_slash path ≡ false
      → i_links_count (s.inode k) ≢ 0
      → walk_from dev_rw now deep entries memory procs from super_user s (some k) path
        ≡ follow
            (one_more dev_rw now deep entries memory procs from super_user s k)
            k
            (s.inode k).dev
            0
            []
            (components path)
  unfolding walk_from
  walk_from-follow s k path e linked =
      let there : (i_links_count (s.inode k) == 0) ≡ false = ground arith in
      rw there
        (walk-follow (length path) _ k (s.inode k).dev 0 [] path (omega arith) (omega arith) e)

  -- A path that is neither empty nor too long, and that starts at a directory with links, leads
  -- where its components lead, entered one after the other until all are entered, one of them
  -- cannot be, or err_code is set, which ends the walk in the directory that it has come to, with
  -- one use more of the directory that it starts at. The name that is looked for in each directory is the one component only in the
  -- first; in the others it stands behind all the components before it.
  pub path_to_inode_lem :
      (root work : ℕ → Option ℕ) (s : Fs Dev) (path : Text) (k : ℕ)
      → 0 < length path
      → length path + 1 < path_max
      → start root work path ≡ some k
      → i_links_count (s.inode k) ≢ 0
      → path_to_inode dev_rw now deep entries memory procs from super_user root work s path
        ≡ follow
            (one_more dev_rw now deep entries memory procs from super_user s k)
            k
            (s.inode k).dev
            0
            []
            (components path)
  unfolding path_to_inode starts_slash
  path_to_inode_lem root work s [] k some_char short at linked = absurd (omega arith)
  path_to_inode_lem root work s (c ∷ cs) k some_char short at linked =
      let fits : leb path_max (length (c ∷ cs) + 1) ≡ false = ground arith in
      elim (Bool-cases (c == slash)) [
        | inl e ↦
            let at' : root from ≡ some k = ground arith in
            rw (fits, e, at', components-slash c cs e, ← components-skip cs)
              (walk_from-follow s k (skip_slashes cs) (skip-starts cs) linked)
        | inr e ↦
            let at' : work from ≡ some k = ground arith in
            rw (fits, e, at') (walk_from-follow s k (c ∷ cs) e linked)
      ]
