-- ===== src/Path.antt =====
-- From a path to an inode: src/fs/path.c, with the search of a directory, src/fs/search.c. A path is
-- the list of its characters, less the NUL. `memory` is the kernel's memory, since a directory
-- entry is declared with a pointer to its name. `from` is the process that sent the message. An
-- `inode_t *` is an index into the inode table. `deep` is fuel for block_find, `entries` for the
-- loop of search_block. No result is a panic, a fault, or a directory entry that does not fit in
-- its block.
pub mod Components
pub mod Counts
pub mod Mounts
pub mod Search
pub mod Tests
use brainix_old.Base.{
  ℕ, zero, suc, ◌+◌, ◌-◌, ◌*◌, ◌/◌, ◌%◌, ◌^◌, Bool, true, false, ◌&&◌, ◌||◌, not, Option, none,
  some, List, [], ◌∷◌, ◌++◌, length, ltb, leb, ◌==◌, if◌then◌else◌, ◌>>=◌,
}
use brainix_old.Base.Table.{first_where}
use brainix_old.Super.{super_get, num_supers}
use brainix_old.Block.{Cache, DevRw, cached_size}
use brainix_old.Process.{Procs}
use brainix_old.Inode.{
  Fs, Inode, Bytes, half, word, i_mode, is_dir, set_inode, with_block, block_find, inode_get,
  inode_put,
}
use brainix_old.Perm.{perm, eacces}

abbrev pub Text : Type 0
Text = List ℕ

abbrev pub slash : ℕ
slash = b'/'

abbrev pub name_max : ℕ
name_max = 255

abbrev pub path_max : ℕ
path_max = 1024

abbrev pub symloop_max : ℕ
symloop_max = 8

abbrev pub root_ino : ℕ
root_ino = 2

abbrev pub x_ok : ℕ
x_ok = 1

abbrev pub eloop : ℕ
eloop = 32

abbrev pub enametoolong : ℕ
enametoolong = 37

abbrev pub enoent : ℕ
enoent = 44

abbrev pub enotdir : ℕ
enotdir = 55

abbrev pub i_links_count : Inode → ℕ
i_links_count i = half i.raw 26

abbrev pub i_blocks : Inode → ℕ
i_blocks i = word i.raw 28

-- i_mode & EXT2_S_IFLNK
abbrev pub is_link : Inode → Bool
is_link i = (i_mode i / 2 ^ 15 % 2 == 1) || (i_mode i / 2 ^ 13 % 2 == 1)

-- strncmp(dir_entry->name, name, strlen(name)) == 0
unfoldable pub begins : Bytes → (at : ℕ) → Text → Bool
begins memory at [] = true
begins memory at (c ∷ cs) = (memory at == c) && begins memory (at + 1) cs

-- The inode number of the entry at `at`, if it has the name, and otherwise 0.
abbrev pub entry_ino : (memory b : Bytes) → (at : ℕ) → Text → ℕ
entry_ino memory b at name =
    if (b (at + 6) == length name) && begins memory (word b (at + 8)) name then word b at else 0

-- The loop of `search_block`; an entry is 12 bytes.
unfoldable pub search_entries : (entries : ℕ) → (memory b : Bytes) → (at : ℕ) → Text → Option ℕ
search_entries zero memory b at name = none
search_entries (suc entries) memory b at name =
    let next = at + half b (at + 4) in
    let rest = search_entries entries memory b next name in
    if ltb cached_size (at + 12)
    then none
    else if not (entry_ino memory b at name == 0)
    then some (entry_ino memory b at name)
    else if ltb cached_size (next + 12)
    then none
    else if word b next == 0
    then some 0
    else rest

-- Where a path leads, or the error number.
pub data Lookup : Type 0 where
  found missing : ℕ → Lookup

-- Where the walk along a path stands: the inode, its device and the links passed, or an error.
pub data Place : Type 0 where
  into : (k dev links : ℕ) → Place
  stop : ℕ → Place

unfoldable pub starts_slash : Text → Bool
starts_slash [] = false
starts_slash (c ∷ cs) = c == slash

unfoldable pub skip_slashes : Text → Text
skip_slashes [] = []
skip_slashes (c ∷ cs) = if c == slash then skip_slashes cs else c ∷ cs

-- The loop that extracts a component: the name and the rest of the path, or the name is too long.
unfoldable pub take_name : (name : Text) → Text → Option (Text × Text)
take_name name [] = some (name, [])
take_name name (c ∷ cs) =
    let rest = take_name (name ++ c ∷ []) cs in
    if c == slash
    then some (name, c ∷ cs)
    else if length (name ++ c ∷ []) == name_max
    then none
    else rest

abbrev pub if_taken {ℓ} : {A : Type ℓ} → Option (Text × Text) → A → (Text → Text → A) → A
if_taken none too_long f = too_long
if_taken (some (name, rest)) too_long f = f name rest

abbrev pub by_place {ℓ} : {A : Type ℓ} → Place → (ℕ → A) → (ℕ → ℕ → ℕ → A) → A
by_place (stop err) f g = f err
by_place (into k dev links) f g = g k dev links

abbrev pub is_at : ℕ → Option ℕ → Bool
is_at k none = false
is_at k (some j) = j == k

module _ {Dev : Type 0} (dev_rw : DevRw Dev Bytes) (now deep entries : ℕ) (memory : Bytes) where
  unfoldable pub search_block :
      Cache Dev Bytes → (dev blk : ℕ) → Text → Option (ℕ × Cache Dev Bytes)
  search_block c dev blk name = do
    b ← with_block dev_rw now c dev blk none
    ino ← search_entries entries memory b.0 0 name
    some (ino, b.1)

  -- From the j-th block on, with `more` blocks behind it.
  unfoldable pub search_blocks : (more j : ℕ) → Fs Dev → ℕ → Text → Option (ℕ × Fs Dev)
  search_blocks zero j s k name = do
    blk ← block_find dev_rw now deep s k j
    r ← search_block blk.1 (s.inode k).dev blk.0 name
    some (r.0, record s { cache = r.1 })
  search_blocks (suc more) j s k name = do
    blk ← block_find dev_rw now deep s k j
    r ← search_block blk.1 (s.inode k).dev blk.0 name
    let t = record s { cache = r.1 }
    let rest = search_blocks more (j + 1) t k name
    if r.0 == 0 then rest else some (r.0, t)

  unfoldable pub search_dir : Fs Dev → ℕ → Text → Option (ℕ × Fs Dev)
  search_dir s k name = do
    sp ← super_get s.cache.supers (s.inode k).dev
    let size = (s.cache.supers sp).block_size / 512
    if size == 0
        then none
        else search_blocks
            (if leb (2 ^ 31) (i_blocks (s.inode k)) then 0 else i_blocks (s.inode k) / size - 1) 0 s
            k name

  abbrev pub stop_at : Fs Dev → ℕ → (err : ℕ) → Option (Place × Fs Dev)
  stop_at s k err = do t ← inode_put dev_rw now s (some k); some (stop err, t)

  abbrev pub fail_at : Fs Dev → ℕ → (err : ℕ) → Option (Lookup × Fs Dev)
  fail_at s k err = do t ← inode_put dev_rw now s (some k); some (missing err, t)

  -- To the root directory of what is mounted on the inode.
  unfoldable pub cross_mount : Fs Dev → (k dev : ℕ) → Option ((ℕ × ℕ) × Fs Dev)
  cross_mount s k dev = if not (s.inode k).mounted then some ((k, dev), s) else do
    sp ← first_where (λ p. is_at k (s.cache.supers p).mount_point) 0 num_supers
    let dev' = (s.cache.supers sp).dev
    t ← inode_put dev_rw now s (some k)
    root ← inode_get dev_rw now t dev' root_ino
    some ((root.0, dev'), root.1)

  module _ (procs : Procs) (from : ℕ) (super_user : Bool) where
    -- What comes behind the search: the component is in slot k now.
    unfoldable pub arrive : Fs Dev → (k dev links : ℕ) → (trailing : Bool) → Option (Place × Fs Dev)
    arrive s k dev links trailing =
        let links' = if is_link (s.inode k) then links + 1 else links in
        if is_link (s.inode k) && leb symloop_max links' then stop_at s k eloop else do
          m ← cross_mount s k dev
          if trailing && not (is_dir (some (m.1.inode m.0.0)))
              then stop_at m.1 m.0.0 enotdir
              else some (into m.0.0 m.0.1 links', m.1)

    -- One round of the loop, with the component's name; a slash may trail it.
    unfoldable pub enter :
        Fs Dev → (k dev links : ℕ) → (name : Text) → (trailing : Bool) → Option (Place × Fs Dev)
    enter s k dev links name trailing =
        if not (perm procs from super_user (some (s.inode k)) x_ok false)
        then stop_at s k eacces
        else do
          r ← search_dir s k name
          if r.0 == 0 then stop_at r.1 k enoent else do
            t ← inode_put dev_rw now r.1 (some k)
            g ← inode_get dev_rw now t dev r.0
            arrive g.1 g.0 dev links trailing

    -- The loop over the components, which ends when err_code is set; `name_ptr` is not set back, so a name is added to `name`.
    unfoldable pub walk :
        (fuel : ℕ) → Fs Dev → (k dev links : ℕ) → (name : Text) → Text → Option (Lookup × Fs Dev)
    walk fuel s k dev links name [] = some (found k, s)
    walk zero s k dev links name (c ∷ cs) = none
    walk (suc fuel) s k dev links name (c ∷ cs) =
        if not (s.cache.err_code == 0)
        then some (found k, s)
        else if_taken (take_name name (c ∷ cs)) (fail_at s k enametoolong) λ name' rest. do
          r ← enter s k dev links name' (starts_slash rest)
          by_place r.0 (λ err. some (missing err, r.1))
              λ k' dev' links'. walk fuel r.1 k' dev' links' name' (skip_slashes rest)

    abbrev pub one_more : Fs Dev → ℕ → Fs Dev
    one_more s k = set_inode s k (record (s.inode k) { count = ((s.inode k).count + 1) % 2 ^ 8 })

    -- From the directory that the path starts at, none for NULL.
    unfoldable pub walk_from : Fs Dev → Option ℕ → (path : Text) → Option (Lookup × Fs Dev)
    walk_from s none path = none
    walk_from s (some k) path =
        if i_links_count (s.inode k) == 0
        then fail_at s k enoent
        else walk (length path) (one_more s k) k (s.inode k).dev 0 [] path

    -- `root` and `work` are the directories of the process.
    unfoldable pub path_to_inode :
        (root work : ℕ → Option ℕ) → Fs Dev → Text → Option (Lookup × Fs Dev)
    unfolding walk_from
    path_to_inode root work s [] = some (missing enoent, s)
    path_to_inode root work s (c ∷ cs) =
        if leb path_max (length (c ∷ cs) + 1)
        then some (missing enametoolong, s)
        else if c == slash
        then walk_from s (root from) (skip_slashes cs)
        else walk_from s (work from) (c ∷ cs)
