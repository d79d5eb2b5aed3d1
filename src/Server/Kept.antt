-- ===== src/Server/Kept.antt =====
-- The users of inodes over the system calls that take a path: src/fs/link.c, src/fs/dir.c,
-- src/fs/stat.c, src/fs/time.c and src/fs/perm.c over src/fs/path.c.
use brainix_old.Base.{
  ℕ, ◌<◌, ◌≡◌, inl, inr, refl, ◌&&◌, not, Option, none, some, ◌==◌, Bool-cases, Option-cases,
  Whenever, Whenever-if,
}
use brainix_old.Inode.{i_uid, Fs, Inode, inode_put, is_dir}
use brainix_old.Perm.{
  no_id, chmoded, chowned, do_fs_access, do_fs_chmod, do_fs_chown, put_and, Answer, success, failed,
  unresolved, eperm,
}
use brainix_old.Path.{Lookup, found, missing, root_ino}
use brainix_old.Server.{
  Env, State, slot, answered, unlink_found, stat_found, utime_found, retimed, ebusy, w_ok, granted,
}
use brainix_old.Server.Users.{
  users, Level, plus, Looked, inode_put-Level, After, put_then, Level-inode, refuse-After,
}

module _ {Dev : Type 0} (e : Env Dev) where
  module _ (s : State Dev) (few : (j : ℕ) → users e s j < 255) where
    abbrev pub Same {ℓ} : {A : Type ℓ} → A × State Dev → Type 0
    Same r = After e s (users e s) r

    pub unlink_found-Same :
        (r : Lookup × State Dev) → Looked e s r → Whenever Same (unlink_found e r.0 r.1)
    unfolding unlink_found
    unlink_found-Same (missing err, t) h = h.0
    unlink_found-Same (found k, t) h =
        Whenever-if Same ((t.fs.inode k).ino == root_ino) _ _
          (refuse-After e s (users e s) k ebusy t few h.0)
          (Whenever-if Same (not e.super_user && is_dir (some (t.fs.inode k))) _ _
            (refuse-After e s (users e s) k eperm t few h.0)
            (put_then e s (users e s) k _ (λ w. (0, w)) few
              (Level-inode e s (plus e (users e s) k) k _ t refl h.0) λ w l. l))

    pub stat_found-Same :
        (r : Lookup × State Dev) → Looked e s r → Whenever Same (stat_found e r.0 r.1)
    unfolding stat_found
    stat_found-Same (missing err, t) h = h.0
    stat_found-Same (found k, t) h = put_then e s (users e s) k t _ few h.0 λ w l. l

    retimed-count : (times : Option (ℕ × ℕ)) (i : Inode) → (retimed e.now times i).count ≡ i.count
    retimed-count none i = refl
    retimed-count (some (actime, modtime)) i = refl

    pub utime_found-Same :
        (times : Option (ℕ × ℕ)) (r : Lookup × State Dev)
        → Looked e s r
        → Whenever Same (utime_found e times r.0 r.1)
    unfolding utime_found
    utime_found-Same times (missing err, t) h = h.0
    utime_found-Same times (found k, t) h =
        Whenever-if Same (not (granted e t k w_ok)) _ _
          (refuse-After e s (users e s) k eperm t few h.0)
          (put_then e s (users e s) k _ (λ w. (0, w)) few
            (Level-inode e s (plus e (users e s) k) k (retimed e.now times (t.fs.inode k)) t
              (retimed-count times (t.fs.inode k)) h.0)
            λ w l. l)

    -- The answers of src/fs/perm.c, which put the inode in slot k as the last thing.
    put_and-Same :
        (t : State Dev) (k : ℕ) (f : Fs Dev) (a : Answer)
        → Level e s (plus e (users e s) k) (record t { fs = f })
        → Whenever Same (answered e t (put_and e.dev_rw e.now f (some k) a))
    put_and-Same t k f a h = elim (Option-cases (inode_put e.dev_rw e.now f (some k))) [
      | inl none_there ↦ rw none_there tt
      | inr (g, there) ↦
          let l : Level e s (users e s) (record t { fs = g }) =
            rw there at (inode_put-Level e s (users e s) k (record t { fs = f }) few h) in
          rw there (said a l)
    ]
      where
        said :
            {g : Fs Dev} (a : Answer)
            → Level e s (users e s) (record t { fs = g })
            → Whenever
                (λ (r : ℕ × State Dev). Level e s (users e s) r.1)
                (answered e t (some (a, g)))
        said success l = l
        said (failed err) l = record { count = l.count; files = l.files }
        said unresolved l = l

    put_none-Same :
        (t : State Dev)
        → Level e s (users e s) t
        → Whenever Same (answered e t (put_and e.dev_rw e.now t.fs none unresolved))
    unfolding inode_put
    put_none-Same t h = h

    pub access_found-Same :
        (amode : ℕ) (r : Lookup × State Dev)
        → Looked e s r
        → Whenever Same (
            answered e r.1
              (do_fs_access e.dev_rw e.now e.procs e.from e.super_user r.1.fs (slot r.0) amode))
    unfolding do_fs_access
    access_found-Same amode (missing err, t) h = put_none-Same t h.0
    access_found-Same amode (found k, t) h = put_and-Same t k t.fs _ h.0

    pub chmod_found-Same :
        (mode : ℕ) (r : Lookup × State Dev)
        → Looked e s r
        → Whenever Same (
            answered e r.1
              (do_fs_chmod e.dev_rw e.now e.procs e.from e.super_user r.1.fs (slot r.0) mode))
    unfolding do_fs_chmod
    chmod_found-Same mode (missing err, t) h = put_none-Same t h.0
    chmod_found-Same mode (found k, t) h =
        elim (Bool-cases
          (not e.super_user && not ((e.procs.proc e.from).euid == i_uid (t.fs.inode k)))) [
            | inl c ↦ rw c (put_and-Same t k t.fs (failed eperm) h.0)
            | inr c ↦ rw c (
                put_and-Same t k _ success (
                  Level-inode e s (plus e (users e s) k) k
                    (chmoded e.dev_rw e.now e.procs e.from e.super_user (t.fs.inode k) mode) t refl
                    h.0))
          ]

    chowned-count :
        (i : Inode) (owner group : ℕ)
        → (chowned e.dev_rw e.now e.procs e.from e.super_user i owner group).count ≡ i.count
    unfolding chowned
    chowned-count i owner group = elim (Bool-cases ((owner == no_id) && (group == no_id))) [
      | inl c ↦ rw c refl
      | inr c ↦ rw c refl
    ]

    pub chown_found-Same :
        (owner group : ℕ) (r : Lookup × State Dev)
        → Looked e s r
        → Whenever Same (
            answered e r.1 (
              do_fs_chown e.dev_rw e.now e.procs e.from e.super_user r.1.fs (slot r.0) owner group))
    unfolding do_fs_chown
    chown_found-Same owner group (missing err, t) h = put_none-Same t h.0
    chown_found-Same owner group (found k, t) h =
        let euid = (e.procs.proc e.from).euid in
        elim (Bool-cases (not e.super_user && not (euid == i_uid (t.fs.inode k)))) [
          | inl c ↦ rw c (put_and-Same t k t.fs (failed eperm) h.0)
          | inr c ↦ elim (Bool-cases (not e.super_user && not (euid == owner))) [
            | inl c' ↦ rw (c, c') (put_and-Same t k t.fs (failed eperm) h.0)
            | inr c' ↦
                rw (c, c')
                  (put_and-Same t k _ success (
                    Level-inode e s (plus e (users e s) k) k
                      (chowned e.dev_rw e.now e.procs e.from e.super_user (t.fs.inode k) owner
                        group)
                      t (chowned-count (t.fs.inode k) owner group) h.0))
          ]
        ]
