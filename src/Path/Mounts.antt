-- ===== src/Path/Mounts.antt =====
-- What looking up a path leaves of the superblock table: src/fs/path.c and src/fs/search.c.
use brainix_old.Base.{
  ℕ, zero, suc, ◌+◌, ◌/◌, Bool, false, ◌&&◌, not, Option, none, some, [], ◌∷◌, length, leb, ◌==◌,
  inl, inr, Option-cases, Whenever, Whenever-bind, >>=-Whenever, Whenever-if, ◌>>=◌,
}
use brainix_old.Base.Table.{first_where}
use brainix_old.Super.{super_get, num_supers}
use brainix_old.Block.{Cache, DevRw}
use brainix_old.Block.Mounts.{Mounts}
use brainix_old.Process.{Procs}
use brainix_old.Perm.{perm, eacces}
use brainix_old.Inode.{Fs, Bytes, is_dir, block_find, with_block, inode_put, inode_get}
use brainix_old.Inode.Mounts.{
  KeptIn, Kept, with_block-Kept, inode_put-Kept, inode_get-Kept, block_find-Kept,
}
use brainix_old.Path.{
  Text, slash, path_max, symloop_max, root_ino, x_ok, eloop, enoent, enotdir, enametoolong,
  i_links_count, is_link, is_at, Lookup, missing, Place, into, stop, by_place, starts_slash,
  skip_slashes, take_name, search_entries, search_block, search_blocks, search_dir, stop_at,
  fail_at, cross_mount, arrive, enter, walk, one_more, walk_from, path_to_inode,
}

module _ {Dev : Type 0} (u : ℕ → ℕ × (Option ℕ × Option ℕ)) (dev_rw : DevRw Dev Bytes)
    (now deep entries : ℕ) (memory : Bytes) where
  abbrev pub In : Fs Dev → Type 0
  In = KeptIn u dev_rw now

  abbrev pub With {ℓ} : {A : Type ℓ} → A × Fs Dev → Type 0
  With r = In r.1

  search_block-Kept :
      (c : Cache Dev Bytes) (d blk : ℕ) (name : Text)
      → Mounts u c
      → Whenever (Kept u dev_rw now) (search_block dev_rw now deep entries memory c d blk name)
  unfolding search_block
  search_block-Kept c d blk name h =
      Whenever-bind (Kept u dev_rw now) (Kept u dev_rw now) (with_block dev_rw now c d blk none) _
        (with_block-Kept u dev_rw now c d blk none h)
        λ b k.
          >>=-Whenever (Kept u dev_rw now) (search_entries entries memory b.0 0 name) _ λ ino. k

  search_blocks-With :
      (more j : ℕ) (s : Fs Dev) (k : ℕ) (name : Text)
      → In s
      → Whenever With (search_blocks dev_rw now deep entries memory more j s k name)
  unfolding search_blocks
  search_blocks-With zero j s k name h =
      Whenever-bind (Kept u dev_rw now) With (block_find dev_rw now deep s k j) _
        (block_find-Kept u dev_rw now deep s k j h)
        λ blk g.
          Whenever-bind (Kept u dev_rw now) With
            (search_block dev_rw now deep entries memory blk.1 (s.inode k).dev blk.0 name) _
            (search_block-Kept blk.1 (s.inode k).dev blk.0 name g) λ r l. l
  search_blocks-With (suc more) j s k name h =
      Whenever-bind (Kept u dev_rw now) With (block_find dev_rw now deep s k j) _
        (block_find-Kept u dev_rw now deep s k j h)
        λ blk g.
          Whenever-bind (Kept u dev_rw now) With
            (search_block dev_rw now deep entries memory blk.1 (s.inode k).dev blk.0 name) _
            (search_block-Kept blk.1 (s.inode k).dev blk.0 name g)
            λ r l.
              Whenever-if With (r.0 == 0) _ _
                (search_blocks-With more (j + 1) (record s { cache = r.1 }) k name l) l

  search_dir-With :
      (s : Fs Dev) (k : ℕ) (name : Text)
      → In s
      → Whenever With (search_dir dev_rw now deep entries memory s k name)
  unfolding search_dir
  search_dir-With s k name h = >>=-Whenever With (super_get s.cache.supers (s.inode k).dev) _ λ sp.
      Whenever-if With ((s.cache.supers sp).block_size / 512 == 0) none _ tt
        (search_blocks-With _ 0 s k name h)

  stop_at-With :
      (s : Fs Dev) (k err : ℕ)
      → In s
      → Whenever With (stop_at dev_rw now deep entries memory s k err)
  stop_at-With s k err h =
      Whenever-bind In With (inode_put dev_rw now s (some k)) _
        (inode_put-Kept u dev_rw now s (some k) h) λ t f. f

  fail_at-With :
      (s : Fs Dev) (k err : ℕ)
      → In s
      → Whenever With (fail_at dev_rw now deep entries memory s k err)
  fail_at-With s k err h =
      Whenever-bind In With (inode_put dev_rw now s (some k)) _
        (inode_put-Kept u dev_rw now s (some k) h) λ t f. f

  put_get-With :
      (s : Fs Dev) (k d ino : ℕ) {A : Type 0} (f : ℕ × Fs Dev → Option (A × Fs Dev))
      → In s
      → ((g : ℕ × Fs Dev) → With g → Whenever With (f g))
      → Whenever With (inode_put dev_rw now s (some k) >>= λ t. inode_get dev_rw now t d ino >>= f)
  put_get-With s k d ino f h then =
      Whenever-bind In With (inode_put dev_rw now s (some k)) _
        (inode_put-Kept u dev_rw now s (some k) h)
        λ t g.
          Whenever-bind With With (inode_get dev_rw now t d ino) f
            (inode_get-Kept u dev_rw now t d ino g) then

  cross_mount-With :
      (s : Fs Dev) (k dev : ℕ)
      → In s
      → Whenever With (cross_mount dev_rw now deep entries memory s k dev)
  unfolding cross_mount
  cross_mount-With s k dev h = Whenever-if With (not (s.inode k).mounted) _ _ h (
      >>=-Whenever With (first_where (λ p. is_at k (s.cache.supers p).mount_point) 0 num_supers) _
        λ sp. put_get-With s k (s.cache.supers sp).dev root_ino _ h λ g w. w)

  module _ (procs : Procs) (from : ℕ) (super_user : Bool) where
    arrive-With :
        (s : Fs Dev) (k dev links : ℕ) (trailing : Bool)
        → In s
        → Whenever With
            (arrive dev_rw now deep entries memory procs from super_user s k dev links trailing)
    unfolding arrive
    arrive-With s k dev links trailing h =
        Whenever-if With (is_link (s.inode k) && leb symloop_max _) _ _ (stop_at-With s k eloop h) (
          Whenever-bind With With (cross_mount dev_rw now deep entries memory s k dev) _
            (cross_mount-With s k dev h)
            λ m g.
              Whenever-if With (trailing && not (is_dir (some (m.1.inode m.0.0)))) _ _
                (stop_at-With m.1 m.0.0 enotdir g) g)

    enter-With :
        (s : Fs Dev) (k dev links : ℕ) (name : Text) (trailing : Bool)
        → In s
        → Whenever With
            (enter dev_rw now deep entries memory procs from super_user s k dev links name trailing)
    unfolding enter
    enter-With s k dev links name trailing h =
        Whenever-if With (not (perm procs from super_user (some (s.inode k)) x_ok false)) _ _
          (stop_at-With s k eacces h)
          (Whenever-bind With With (search_dir dev_rw now deep entries memory s k name) _
            (search_dir-With s k name h)
            λ r g.
              Whenever-if With (r.0 == 0) _ _ (stop_at-With r.1 k enoent g)
                (put_get-With r.1 k dev r.0 _ g λ g w. arrive-With g.1 g.0 dev links trailing w))

    placed-With :
        (on : Fs Dev → (k dev links : ℕ) → Option (Lookup × Fs Dev))
        → ((t : Fs Dev) (k dev links : ℕ) → In t → Whenever With (on t k dev links))
        → (r : Place × Fs Dev) → With r
        → Whenever With (by_place r.0 (λ err. some (missing err, r.1)) (on r.1))
    placed-With on h (stop err, t) f = f
    placed-With on h (into k dev links, t) f = h t k dev links f

    walk-With :
        (fuel : ℕ) (s : Fs Dev) (k dev links : ℕ) (name path : Text)
        → In s
        → Whenever With
            (walk dev_rw now deep entries memory procs from super_user fuel s k dev links name path)
    unfolding walk
    walk-With fuel s k dev links name [] h = h
    walk-With zero s k dev links name (c ∷ cs) h = tt
    walk-With (suc fuel) s k dev links name (c ∷ cs) h =
        Whenever-if With (not (s.cache.err_code == 0)) _ _ h
          (elim (Option-cases (take_name name (c ∷ cs))) [
            | inl long ↦ rw long (fail_at-With s k enametoolong h)
            | inr ((name', rest), e) ↦ rw e (
                Whenever-bind With With
                  (enter dev_rw now deep entries memory procs from super_user s k dev links name'
                    (starts_slash rest))
                  _ (enter-With s k dev links name' (starts_slash rest) h)
                  (placed-With
                    (λ t k' dev' links'.
                      walk dev_rw now deep entries memory procs from super_user fuel t k' dev'
                        links' name' (skip_slashes rest))
                    (λ t k' dev' links' g.
                      walk-With fuel t k' dev' links' name' (skip_slashes rest) g)))
          ])

    walk_from-With :
        (s : Fs Dev) (dir : Option ℕ) (path : Text)
        → In s
        → Whenever With (walk_from dev_rw now deep entries memory procs from super_user s dir path)
    unfolding walk_from
    walk_from-With s none path h = tt
    walk_from-With s (some k) path h =
        Whenever-if With (i_links_count (s.inode k) == 0) _ _ (fail_at-With s k enoent h) (
          walk-With (length path)
            (one_more dev_rw now deep entries memory procs from super_user s k) k (s.inode k).dev 0
            [] path h)

    pub path_to_inode-With :
        (root work : ℕ → Option ℕ) (s : Fs Dev) (path : Text)
        → In s
        → Whenever With
            (path_to_inode dev_rw now deep entries memory procs from super_user root work s path)
    unfolding path_to_inode
    path_to_inode-With root work s [] h = h
    path_to_inode-With root work s (c ∷ cs) h =
        Whenever-if With (leb path_max (length (c ∷ cs) + 1)) _ _ h (
          Whenever-if With (c == slash) _ _ (walk_from-With s (root from) (skip_slashes cs) h)
            (walk_from-With s (work from) (c ∷ cs) h))
