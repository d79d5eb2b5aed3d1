-- ===== src/Server/Balance.antt =====
-- No use of an inode is lost or left behind by a system call on paths: src/fs/link.c, src/fs/dir.c,
-- src/fs/stat.c, src/fs/time.c and src/fs/perm.c over src/fs/path.c and src/fs/inode.c.
use brainix_old.Base.{
  ℕ, ◌+◌, ◌≤◌, ◌<◌, ◌≡◌, ◌≢◌, refl, sym, ap, ◌∙◌, ◌&&◌, not, some, leb, arith, ◌>>=◌, Whenever,
  Whenever-bind, Whenever-if,
}
use brainix_old.Inode.{inode_put, is_dir, half}
use brainix_old.Perm.{eperm}
use brainix_old.Path.{Text, Lookup, found, missing, i_links_count}
use brainix_old.Server.{
  Env, State, look_up, put, refuse, slot, do_fs_link, link_found, link_both, link_new, link_max,
  emlink, eexist,
}
use brainix_old.Server.Users.{
  users, Rooted, Level, plus, Looked, look_up-Looked, put-Level, After, put_then, Level-err,
  Level-inode, refuse-After,
}

module _ {Dev : Type 0} (e : Env Dev) where
  -- With one user more of the inode that a path led to.
  abbrev with_found : Lookup → (ℕ → ℕ) → ℕ → ℕ
  with_found (found k) n = plus e n k
  with_found (missing err) n = n

  Looked-Level :
      (s t : State Dev) (x : Lookup) → Looked e s (x, t) → Level e s (with_found x (users e s)) t
  Looked-Level s t (found k) h = h.0
  Looked-Level s t (missing err) h = h.0

  Looked-raw :
      (s t : State Dev) (x : Lookup)
      → Looked e s (x, t)
      → (j : ℕ) → users e s j ≢ 0
      → (t.fs.inode j).raw ≡ (s.fs.inode j).raw
  Looked-raw s t (found k) h = h.1
  Looked-raw s t (missing err) h = h.1

  plus-le : (n : ℕ → ℕ) (k j : ℕ) → (n j ≤ plus e n k j) × (plus e n k j ≤ n j + 1)
  plus-le n k j = ground arith

  with_found-le :
      (n : ℕ → ℕ) (x : Lookup) (j : ℕ) → (n j ≤ with_found x n j) × (with_found x n j ≤ n j + 1)
  with_found-le n (found k) j = plus-le n k j
  with_found-le n (missing err) j = omega arith

  -- The second path is looked up in a state in which the caller's directories are as they were.
  Looked-Rooted : (s t : State Dev) (x : Lookup) → Rooted e s → Looked e s (x, t) → Rooted e t
  Looked-Rooted s t x rooted h k at =
      let l = Looked-Level s t x h in
      let r = rooted k (rw l.files at at) in
      let le = with_found-le (users e s) x k in
      let c = l.count k in
      (
        let some_use = r.0 in ground arith,
        λ z. r.1 (ap (λ b. half b 26) (sym (Looked-raw s t x h k r.0)) ∙ z),
      )

  Level-then :
      (s t w : State Dev) (n : ℕ → ℕ) (x : Lookup)
      → Level e s n t
      → Looked e t (x, w)
      → Level e s (with_found x n) w
  Level-then s t w n x h k =
      let l = Looked-Level t w x k in
      record { count = λ j. l.count j ∙ replaced x j; files = l.files ∙ h.files }
    where
      replaced : (x : Lookup) (j : ℕ) → with_found x (users e t) j ≡ with_found x n j
      replaced (found k) j = rw (h.count j) refl
      replaced (missing err) j = h.count j

  swap :
      (s t : State Dev) (n : ℕ → ℕ) (x : Lookup) (i : ℕ)
      → Level e s (with_found x (plus e n i)) t
      → Level e s (plus e (with_found x n) i) t
  swap s t n (missing err) i h = h
  swap s t n (found k) i h = record {
    count = λ j. let c = h.count j in ground arith;
    files = h.files;
  }

  slot_freed :
      (s t : State Dev) (n : ℕ → ℕ) (x : Lookup)
      → ((j : ℕ) → n j < 255)
      → Level e s (with_found x n) t
      → Whenever (Level e s n) (put e t (slot x))
  unfolding put inode_put
  slot_freed s t n (missing err) few h = record { count = h.count; files = h.files }
  slot_freed s t n (found k) few h = put-Level e s n k t few h

  slot_refused :
      (s t : State Dev) (n : ℕ → ℕ) (x : Lookup) (err : ℕ)
      → ((j : ℕ) → n j < 255)
      → Level e s (with_found x n) t
      → Whenever (After e s n) (refuse e t (slot x) err)
  slot_refused s t n x err few h =
      Whenever-bind (Level e s n) (After e s n) (put e t (slot x)) _ (slot_freed s t n x few h)
        λ w l. Level-err e s n err w l

  module _ (s : State Dev) (few : (j : ℕ) → users e s j < 254) where
    found_few : (x : Lookup) (j : ℕ) → with_found x (users e s) j < 255
    found_few x j = let le = with_found-le (users e s) x j in let lt = few j in omega arith

    link_new-After :
        (i : ℕ) (x : Lookup) (t : State Dev)
        → Level e s (plus e (with_found x (users e s)) i) t
        → Whenever (After e s (users e s)) (link_new e i x t)
    unfolding link_new
    link_new-After i (found j) t h =
        Whenever-bind (Level e s (plus e (users e s) j)) (After e s (users e s)) (put e t (some i))
          _ (put-Level e s (plus e (users e s) j) i t (found_few (found j)) h)
          λ w l. refuse-After e s (users e s) j eexist w (found_few (missing 0)) l
    link_new-After i (missing err) t h =
        put_then e s (users e s) i _ (λ w. (0, w)) (found_few (missing err))
          (Level-inode e s (plus e (users e s) i) i _ t refl h) λ w l. l

    put_both :
        (i : ℕ) (x : Lookup) (err : ℕ) (t : State Dev)
        → Level e s (plus e (with_found x (users e s)) i) t
        → Whenever (After e s (users e s)) (put e t (some i) >>= λ w. refuse e w (slot x) err)
    put_both i x err t h =
        Whenever-bind (Level e s (with_found x (users e s))) (After e s (users e s))
          (put e t (some i)) _ (put-Level e s (with_found x (users e s)) i t (found_few x) h)
          λ w l. slot_refused s w (users e s) x err (found_few (missing 0)) l

    link_both-After :
        (a b : Lookup) (t w : State Dev)
        → Looked e s (a, t)
        → Looked e t (b, w)
        → Whenever (After e s (users e s)) (link_both e a b w)
    unfolding link_both link_found
    link_both-After (missing err) b t w h k =
        Whenever-bind (Level e s (users e s)) (After e s (users e s)) (put e w (slot b)) _
          (slot_freed s w (users e s) b (found_few (missing 0))
            (Level-then s t w (users e s) b (Looked-Level s t (missing err) h) k))
          λ w' l. l
    link_both-After (found i) b t w h k =
        let both : Level e s (plus e (with_found b (users e s)) i) w =
          swap s w (users e s) b i
            (Level-then s t w (plus e (users e s) i) b (Looked-Level s t (found i) h) k) in
        Whenever-if (After e s (users e s)) (leb link_max (i_links_count (w.fs.inode i))) _ _
          (put_both i b emlink w both)
          (Whenever-if (After e s (users e s)) (not e.super_user && is_dir (some (w.fs.inode i))) _
            _ (put_both i b eperm w both) (link_new-After i b w both))

    pub do_fs_link-After :
        (path1 path2 : Text)
        → Rooted e s
        → Whenever (After e s (users e s)) (do_fs_link e s path1 path2)
    unfolding do_fs_link
    do_fs_link-After path1 path2 rooted =
        Whenever-bind (Looked e s) (After e s (users e s)) (look_up e s path1) _
          (look_up-Looked e s path1 (found_few (missing 0)) rooted)
          λ (a, t) h.
            Whenever-bind (Looked e t) (After e s (users e s)) (look_up e t path2) _
              (look_up-Looked e t path2 (second_few a t h) (Looked-Rooted s t a rooted h))
              λ (b, w) k. link_both-After a b t w h k
      where
        second_few : (a : Lookup) (t : State Dev) → Looked e s (a, t) → (j : ℕ) → users e t j < 255
        second_few a t h j = rw ((Looked-Level s t a h).count j) (found_few a j)
