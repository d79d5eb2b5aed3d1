-- ===== src/Server/Calls.antt =====
-- The system calls on paths that leave no file open, together: access(), chmod(), chown(), stat(),
-- unlink(), chdir(), chroot(), utime() and link(). The users of inodes, and the directories of the
-- caller, which chdir() and chroot() of src/fs/dir.c change. open() and execve() are not among them.
use brainix_old.Base.{
  ℕ, ◌+◌, ◌-◌, ◌<◌, ◌≡◌, ◌≢◌, inl, inr, refl, sym, ap, ◌∙◌, Bool, true, false, not, Option, none,
  some, ◌==◌, arith, if◌then◌else◌, update, ◌>>=◌, Bool-cases, Whenever, Whenever-bind, Whenever-if,
  Whenever-mono,
}
use brainix_old.Inode.{is_dir, inode_put}
use brainix_old.Perm.{eacces}
use brainix_old.Path.{Text, Lookup, found, missing, x_ok, enotdir}
use brainix_old.Server.{
  Env, State, look_up, put, do_fs_link, do_fs_unlink, do_fs_chroot, do_fs_chdir, change, change_dir,
  do_fs_stat, do_fs_utime, access_path, chmod_path, chown_path, granted,
}
use brainix_old.Server.Users.{
  users, Rooted, Level, plus, Looked, look_up-Looked, put-Level, After, refuse-After,
}
use brainix_old.Server.Kept.{
  unlink_found-Same, stat_found-Same, utime_found-Same, access_found-Same, chmod_found-Same,
  chown_found-Same,
}
use brainix_old.Server.Balance.{do_fs_link-After}

pub data PathCall : Type 0 where
  access_call chmod_call : Text → ℕ → PathCall
  chown_call : Text → (owner group : ℕ) → PathCall
  stat_call unlink_call chdir_call chroot_call : Text → PathCall
  utime_call : Text → (times : Option (ℕ × ℕ)) → PathCall
  link_call : (path1 path2 : Text) → PathCall

abbrev pub weight : ℕ → Option ℕ → ℕ
weight j none = 0
weight j (some k) = if j == k then 1 else 0

module _ {Dev : Type 0} (e : Env Dev) where
  abbrev pub without_stat : {A : Type 0} → Option ((ℕ × A) × State Dev) → Option (ℕ × State Dev)
  without_stat none = none
  without_stat (some ((r, a), s)) = some (r, s)

  abbrev pub run : PathCall → State Dev → Option (ℕ × State Dev)
  run (access_call path amode) s = access_path e s path amode
  run (chmod_call path mode) s = chmod_path e s path mode
  run (chown_call path owner group) s = chown_path e s path owner group
  run (stat_call path) s = without_stat (do_fs_stat e s path)
  run (unlink_call path) s = do_fs_unlink e s path
  run (chdir_call path) s = do_fs_chdir e s path
  run (chroot_call path) s = do_fs_chroot e s path
  run (utime_call path times) s = do_fs_utime e s path times
  run (link_call path1 path2) s = do_fs_link e s path1 path2

  -- How many of the two directories of the caller are the inode in slot j.
  abbrev pub homes : State Dev → ℕ → ℕ
  homes s j = weight j (s.files.root_dir e.from) + weight j (s.files.work_dir e.from)

  -- The uses of inodes that are not those by the caller's directories are the same.
  abbrev pub Balanced : (s : State Dev) → ℕ × State Dev → Type 0
  Balanced s r = (j : ℕ) → users e r.1 j + homes s j ≡ users e s j + homes r.1 j

  module _ (s : State Dev) (few : (j : ℕ) → users e s j < 254) (rooted : Rooted e s) where
    few' : (j : ℕ) → users e s j < 255
    few' j = let lt = few j in omega arith

    Balanced-After : (r : ℕ × State Dev) → After e s (users e s) r → Balanced s r
    Balanced-After r l j = rw (l.count j, l.files) refl

    looked :
        {A : Type 0} (path : Text) (f : Lookup × State Dev → Option (A × State Dev))
        → ((r : Lookup × State Dev) → Looked e s r → Whenever (After e s (users e s)) (f r))
        → Whenever (After e s (users e s)) (look_up e s path >>= f)
    looked path f h =
        Whenever-bind (Looked e s) (After e s (users e s)) (look_up e s path) f
          (look_up-Looked e s path few' rooted) h

    balanced :
        (r : Option (ℕ × State Dev)) → Whenever (After e s (users e s)) r → Whenever (Balanced s) r
    balanced r h = Whenever-mono (After e s (users e s)) (Balanced s) r h Balanced-After

    -- The old directory of the caller is put, where an inode has been found.
    old_put :
        (k : ℕ) (t : State Dev) (old : Option ℕ)
        → Level e s (plus e (users e s) k) t
        → ((d : ℕ) → old ≡ some d → users e s d ≢ 0)
        → Whenever
            (λ w.
              (w.files ≡ s.files)
              × ((j : ℕ) → users e w j + weight j old ≡ users e s j + weight j (some k)))
            (put e t old)
    unfolding put inode_put
    old_put k t none h used = (h.files, λ j. let c = h.count j in ground arith)
    old_put k t (some d) h used =
        let n : ℕ → ℕ = λ j. plus e (users e s) k j - weight j (some d) in
        let some_use = used d refl in
        Whenever-mono (Level e s n) _ (put e t (some d))
          (put-Level e s n d t (below k d)
            (record { count = λ j. h.count j ∙ again k d j some_use; files = h.files }))
          λ w l. (l.files, λ j. ap (λ x. x + weight j (some d)) (l.count j) ∙ sums k d j some_use)
      where
        below : (k d j : ℕ) → plus e (users e s) k j - weight j (some d) < 255
        below k d j = let lt = few j in ground arith

        again :
            (k d j : ℕ)
            → users e s d ≢ 0
            → plus e (users e s) k j ≡ plus e (λ j. plus e (users e s) k j - weight j (some d)) d j
        again k d j used = elim (Bool-cases (j == d)) [
          | inl c ↦
              let same : j ≡ d = ground arith in
              let eq : (d == d) ≡ true = ground arith in rw (same, eq) (ground arith)
          | inr c ↦ rw c (omega arith)
        ]

        sums :
            (k d j : ℕ)
            → users e s d ≢ 0
            → plus e (users e s) k j - weight j (some d) + weight j (some d)
              ≡ users e s j + weight j (some k)
        sums k d j used = elim (Bool-cases (j == d)) [
          | inl c ↦
              let same : j ≡ d = ground arith in
              let eq : (d == d) ≡ true = ground arith in rw (same, eq) (ground arith)
          | inr c ↦ rw c (ground arith)
        ]

    abbrev Moved : (k : ℕ) → (old : Option ℕ) → State Dev → Type 0
    Moved k old w =
        (w.files ≡ s.files)
        × ((j : ℕ) → users e w j + weight j old ≡ users e s j + weight j (some k))

    root-Moved :
        (k : ℕ) (t w : State Dev)
        → t.files ≡ s.files
        → Moved k (t.files.root_dir e.from) w
        → Balanced s (
          0,
          record w {
            files = record w.files { root_dir = update w.files.root_dir e.from (some k) };
          },
        )
    root-Moved k t w same (f, m) j =
        let c = m j in
        let old = ap (λ x. weight j (x.root_dir e.from)) same in
        let work = ap (λ x. weight j (x.work_dir e.from)) f in
        let eq : (e.from == e.from) ≡ true = ground arith in rw eq (omega arith)

    work-Moved :
        (k : ℕ) (t w : State Dev)
        → t.files ≡ s.files
        → Moved k (t.files.work_dir e.from) w
        → Balanced s (
          0,
          record w {
            files = record w.files { work_dir = update w.files.work_dir e.from (some k) };
          },
        )
    work-Moved k t w same (f, m) j =
        let c = m j in
        let old = ap (λ x. weight j (x.work_dir e.from)) same in
        let root = ap (λ x. weight j (x.root_dir e.from)) f in
        let eq : (e.from == e.from) ≡ true = ground arith in rw eq (omega arith)

    change_dir-Balanced :
        (root : Bool) (r : Lookup × State Dev)
        → Looked e s r
        → Whenever (Balanced s) (change_dir e root r.0 r.1)
    unfolding change_dir
    change_dir-Balanced root (missing err, t) h = Balanced-After (0, t) h.0
    change_dir-Balanced root (found k, t) h =
        let same = h.0.files in
        Whenever-if (Balanced s) (not (is_dir (some (t.fs.inode k)))) _ _
          (balanced _ (refuse-After e s (users e s) k enotdir t few' h.0))
          (Whenever-if (Balanced s) (not (granted e t k x_ok)) _ _
            (balanced _ (refuse-After e s (users e s) k eacces t few' h.0))
            (Whenever-if (Balanced s) root _ _
              (Whenever-bind (Moved k (t.files.root_dir e.from)) (Balanced s)
                (put e t (t.files.root_dir e.from)) _
                (old_put k t (t.files.root_dir e.from) h.0
                  λ d at. (rooted d (inl (ap (λ x. x.root_dir e.from) (sym same) ∙ at))).0)
                (λ w m. root-Moved k t w same m))
              (Whenever-bind (Moved k (t.files.work_dir e.from)) (Balanced s)
                (put e t (t.files.work_dir e.from)) _
                (old_put k t (t.files.work_dir e.from) h.0
                  λ d at. (rooted d (inr (ap (λ x. x.work_dir e.from) (sym same) ∙ at))).0)
                (λ w m. work-Moved k t w same m))))

    change-Balanced : (root : Bool) (path : Text) → Whenever (Balanced s) (change e s root path)
    unfolding change
    change-Balanced root path =
        Whenever-bind (Looked e s) (Balanced s) (look_up e s path) _
          (look_up-Looked e s path few' rooted) (change_dir-Balanced root)

    without_stat-Balanced :
        {A : Type 0} (r : Option ((ℕ × A) × State Dev))
        → Whenever (After e s (users e s)) r
        → Whenever (Balanced s) (without_stat r)
    without_stat-Balanced none h = tt
    without_stat-Balanced (some ((n, a), t)) h = Balanced-After (n, t) h

    -- None of the calls access(), chmod(), chown(), stat(), unlink(), chdir(), chroot(), utime() and
    -- link() loses or leaves behind a use of an inode, whether it succeeds or fails, unless it ends
    -- in a panic or a fault: each inode has as many users as before, less one if it was the root or
    -- working directory of the caller that has been replaced, and one more if it has replaced it.
    -- This holds where the caller's directories are in use and have links, and no inode has 254 users
    -- before.
    pub run-Balanced : (c : PathCall) → Whenever (Balanced s) (run c s)
    unfolding access_path chmod_path chown_path do_fs_stat do_fs_unlink do_fs_chdir do_fs_chroot
        do_fs_utime
    run-Balanced (access_call path amode) =
        balanced _ (looked path _ (access_found-Same e s few' amode))
    run-Balanced (chmod_call path mode) =
        balanced _ (looked path _ (chmod_found-Same e s few' mode))
    run-Balanced (chown_call path owner group) =
        balanced _ (looked path _ (chown_found-Same e s few' owner group))
    run-Balanced (stat_call path) =
        without_stat-Balanced _ (looked path _ (stat_found-Same e s few'))
    run-Balanced (unlink_call path) = balanced _ (looked path _ (unlink_found-Same e s few'))
    run-Balanced (chdir_call path) = change-Balanced false path
    run-Balanced (chroot_call path) =
        Whenever-if (Balanced s) (not e.super_user) _ _ (λ j. refl) (change-Balanced true path)
    run-Balanced (utime_call path times) =
        balanced _ (looked path _ (utime_found-Same e s few' times))
    run-Balanced (link_call path1 path2) =
        balanced (do_fs_link e s path1 path2) (do_fs_link-After e s few path1 path2 rooted)
