-- ===== src/Path/Counts.antt =====
-- The users of inodes while a path is walked: path_to_inode of src/fs/path.c.
use brainix_old.Base.{
  ℕ, zero, suc, ◌+◌, ◌/◌, ◌%◌, ◌^◌, ◌<◌, ◌≡◌, ◌≢◌, refl, Bool, false, ◌&&◌, not, Option, none, some,
  [], ◌∷◌, length, leb, ◌==◌, arith, Bool-cases, inl, inr, ◌⊎◌, Option-cases, Whenever,
  Whenever-bind, >>=-Whenever, Whenever-if,
}
use brainix_old.Base.Table.{first_where}
use brainix_old.Super.{super_get, num_supers}
use brainix_old.Block.{DevRw}
use brainix_old.Process.{Procs}
use brainix_old.Perm.{perm, eacces}
use brainix_old.Inode.{Fs, Bytes, is_dir, set_inode, block_find, inode_put, inode_get}
use brainix_old.Inode.Uses.{uses, Holding, Free, inode_put-Free, inode_get-Holding}
use brainix_old.Path.{
  Text, slash, path_max, symloop_max, root_ino, x_ok, eloop, enoent, enotdir, enametoolong,
  i_links_count, is_link, is_at, Lookup, found, missing, Place, into, stop, by_place, starts_slash,
  skip_slashes, take_name, search_block, search_blocks, search_dir, stop_at, fail_at, cross_mount,
  arrive, enter, walk, one_more, walk_from, path_to_inode,
}

module _ {Dev : Type 0} (dev_rw : DevRw Dev Bytes) (now deep entries : ℕ) (memory : Bytes) where
  abbrev Same : Fs Dev → ℕ × Fs Dev → Type 0
  Same s r = r.1.inode ≡ s.inode

  search_blocks-Same :
      (more j : ℕ) (s : Fs Dev) (k : ℕ) (name : Text)
      → Whenever (Same s) (search_blocks dev_rw now deep entries memory more j s k name)
  unfolding search_blocks
  search_blocks-Same zero j s k name =
      >>=-Whenever (Same s) (block_find dev_rw now deep s k j) _ λ blk.
        >>=-Whenever (Same s)
          (search_block dev_rw now deep entries memory blk.1 (s.inode k).dev blk.0 name) _ λ r. refl
  search_blocks-Same (suc more) j s k name =
      >>=-Whenever (Same s) (block_find dev_rw now deep s k j) _ λ blk.
        >>=-Whenever (Same s)
          (search_block dev_rw now deep entries memory blk.1 (s.inode k).dev blk.0 name) _
          λ r.
            Whenever-if (Same s) (r.0 == 0) _ _
              (search_blocks-Same more (j + 1) (record s { cache = r.1 }) k name) refl

  pub search_dir-Same :
      (s : Fs Dev) (k : ℕ) (name : Text)
      → Whenever (Same s) (search_dir dev_rw now deep entries memory s k name)
  unfolding search_dir
  search_dir-Same s k name =
      >>=-Whenever (Same s) (super_get s.cache.supers (s.inode k).dev) _ λ sp.
        Whenever-if (Same s) ((s.cache.supers sp).block_size / 512 == 0) none _ tt
          (search_blocks-Same _ 0 s k name)

  module _ (u : Fs Dev) (few : (j : ℕ) → uses u j < 255) where
    -- What a place, and what a lookup, says about the users.
    abbrev pub Standing : Place × Fs Dev → Type 0
    Standing (into k dev links, t) = Holding u t k
    Standing (stop err, t) = Free u t

    abbrev pub Ended : Lookup × Fs Dev → Type 0
    Ended (found k, t) = Holding u t k
    Ended (missing err, t) = Free u t

    placed :
        (on : Fs Dev → (k dev links : ℕ) → Option (Lookup × Fs Dev))
        → ((t : Fs Dev) (k dev links : ℕ) → Holding u t k → Whenever Ended (on t k dev links))
        → (r : Place × Fs Dev) → Standing r
        → Whenever Ended (by_place r.0 (λ err. some (missing err, r.1)) (on r.1))
    placed on h (stop err, t) f = f
    placed on h (into k dev links, t) g = h t k dev links g

    stop_at-Standing :
        (s : Fs Dev) (k err : ℕ)
        → Holding u s k
        → Whenever Standing (stop_at dev_rw now deep entries memory s k err)
    stop_at-Standing s k err h =
        Whenever-bind (Free u) Standing (inode_put dev_rw now s (some k)) _
          (inode_put-Free dev_rw now u few s k h) λ t f. f

    fail_at-Ended :
        (s : Fs Dev) (k err : ℕ)
        → Holding u s k
        → Whenever Ended (fail_at dev_rw now deep entries memory s k err)
    fail_at-Ended s k err h =
        Whenever-bind (Free u) Ended (inode_put dev_rw now s (some k)) _
          (inode_put-Free dev_rw now u few s k h) λ t f. f

    cross_mount-Holding :
        (s : Fs Dev) (k dev : ℕ)
        → Holding u s k
        → Whenever (λ m. Holding u m.1 m.0.0) (cross_mount dev_rw now deep entries memory s k dev)
    unfolding cross_mount
    cross_mount-Holding s k dev h = elim (Bool-cases (s.inode k).mounted) [
      | inr m ↦ rw m h
      | inl m ↦ rw m (
          >>=-Whenever (λ m. Holding u m.1 m.0.0)
            (first_where (λ p. is_at k (s.cache.supers p).mount_point) 0 num_supers) _
            λ sp.
              Whenever-bind (Free u) (λ m. Holding u m.1 m.0.0) (inode_put dev_rw now s (some k)) _
                (inode_put-Free dev_rw now u few s k h)
                λ t f.
                  Whenever-bind (λ r. Holding u r.1 r.0) (λ m. Holding u m.1 m.0.0)
                    (inode_get dev_rw now t (s.cache.supers sp).dev root_ino) _
                    (inode_get-Holding dev_rw now u few t (s.cache.supers sp).dev root_ino f)
                    λ r g. g)
    ]

    module _ (procs : Procs) (from : ℕ) (super_user : Bool) where
      arrive-Standing :
          (s : Fs Dev) (k dev links : ℕ) (trailing : Bool)
          → Holding u s k
          → Whenever Standing
              (arrive dev_rw now deep entries memory procs from super_user s k dev links trailing)
      unfolding arrive
      arrive-Standing s k dev links trailing h =
          Whenever-if Standing (is_link (s.inode k) && leb symloop_max _) _ _
            (stop_at-Standing s k eloop h)
            (Whenever-bind (λ m. Holding u m.1 m.0.0) Standing
              (cross_mount dev_rw now deep entries memory s k dev) _ (cross_mount-Holding s k dev h)
              λ m g.
                Whenever-if Standing (trailing && not (is_dir (some (m.1.inode m.0.0)))) _ _
                  (stop_at-Standing m.1 m.0.0 enotdir g) g)

      pub enter-Standing :
          (s : Fs Dev) (k dev links : ℕ) (name : Text) (trailing : Bool)
          → Holding u s k
          → Whenever Standing (
              enter dev_rw now deep entries memory procs from super_user s k dev links name
                trailing)
      unfolding enter
      enter-Standing s k dev links name trailing h =
          Whenever-if Standing (not (perm procs from super_user (some (s.inode k)) x_ok false)) _ _
            (stop_at-Standing s k eacces h)
            (Whenever-bind (Same s) Standing (search_dir dev_rw now deep entries memory s k name) _
              (search_dir-Same s k name)
              λ r same.
                let h' : Holding u r.1 k = rw same h in
                Whenever-if Standing (r.0 == 0) _ _ (stop_at-Standing r.1 k enoent h') (
                  Whenever-bind (Free u) Standing (inode_put dev_rw now r.1 (some k)) _
                    (inode_put-Free dev_rw now u few r.1 k h')
                    λ t f.
                      Whenever-bind (λ g. Holding u g.1 g.0) Standing
                        (inode_get dev_rw now t dev r.0) _
                        (inode_get-Holding dev_rw now u few t dev r.0 f)
                        λ g held. arrive-Standing g.1 g.0 dev links trailing held))

      walk-Ended :
          (fuel : ℕ) (s : Fs Dev) (k dev links : ℕ) (name path : Text)
          → Holding u s k
          → Whenever Ended (
              walk dev_rw now deep entries memory procs from super_user fuel s k dev links name
                path)
      unfolding walk
      walk-Ended fuel s k dev links name [] h = h
      walk-Ended zero s k dev links name (c ∷ cs) h = tt
      walk-Ended (suc fuel) s k dev links name (c ∷ cs) h =
          Whenever-if Ended (not (s.cache.err_code == 0)) _ _ h
            (elim (Option-cases (take_name name (c ∷ cs))) [
              | inl long ↦ rw long (fail_at-Ended s k enametoolong h)
              | inr ((name', rest), e) ↦ rw e (
                  Whenever-bind Standing Ended
                    (enter dev_rw now deep entries memory procs from super_user s k dev links name'
                      (starts_slash rest))
                    _ (enter-Standing s k dev links name' (starts_slash rest) h)
                    (placed
                      (λ t k' dev' links'.
                        walk dev_rw now deep entries memory procs from super_user fuel t k' dev'
                          links' name' (skip_slashes rest))
                      (λ t k' dev' links' g.
                        walk-Ended fuel t k' dev' links' name' (skip_slashes rest) g)))
            ])

  counted :
      (s : Fs Dev) (k : ℕ)
      → ((j : ℕ) → uses s j < 255)
      → Holding s (set_inode s k (record (s.inode k) { count = ((s.inode k).count + 1) % 2 ^ 8 })) k
  counted s k few j = elim (Bool-cases (j == k)) [
    | inl c ↦
        let same : j ≡ k = ground arith in
        let lt = few k in
        let next : (uses s k + 1) % 2 ^ 8 ≡ uses s k + 1 = omega arith in
        (rw (uses, c, same) next, λ used. rw c (rw same refl))
    | inr c ↦ (rw (uses, c) refl, λ used. rw c refl)
  ]

  module _ (procs : Procs) (from : ℕ) (super_user : Bool) where
    walk_from-Ended :
        (s : Fs Dev) (k : ℕ) (path : Text) (few : (j : ℕ) → uses s j < 255)
        → i_links_count (s.inode k) ≢ 0
        → Whenever
            (Ended s few)
            (walk_from dev_rw now deep entries memory procs from super_user s (some k) path)
    unfolding walk_from
    walk_from-Ended s k path few linked =
        let there : (i_links_count (s.inode k) == 0) ≡ false = ground arith in
        let more : Holding s (one_more dev_rw now deep entries memory procs from super_user s k) k =
          counted s k few in
        rw there
          (walk-Ended s few procs from super_user (length path) _ k (s.inode k).dev 0 [] path more)

    -- However a path that starts at a directory with links is resolved, no use of an inode is lost
    -- or left behind: the inode that is found has one user more, all others have as many as before,
    -- and if none is found, so has every inode. An inode that somebody uses keeps its slot and its
    -- bytes. No inode may have 255 users before.
    pub path_to_inode-Ended :
        (root work : ℕ → Option ℕ) (s : Fs Dev) (path : Text) (few : (j : ℕ) → uses s j < 255)
        → ((k : ℕ) → (root from ≡ some k) ⊎ (work from ≡ some k) → i_links_count (s.inode k) ≢ 0)
        → Whenever
            (Ended s few)
            (path_to_inode dev_rw now deep entries memory procs from super_user root work s path)
    unfolding path_to_inode walk_from
    path_to_inode-Ended root work s [] few linked = λ j. (refl, λ z. refl)
    path_to_inode-Ended root work s (c ∷ cs) few linked =
        Whenever-if (Ended s few) (leb path_max (length (c ∷ cs) + 1)) _ _ (λ j. (refl, λ z. refl))
          (Whenever-if (Ended s few) (c == slash) _ _
            (from_dir (root from) (skip_slashes cs) (λ k e. linked k (inl e)))
            (from_dir (work from) (c ∷ cs) (λ k e. linked k (inr e))))
      where
        from_dir :
            (dir : Option ℕ) (path : Text)
            → ((k : ℕ) → dir ≡ some k → i_links_count (s.inode k) ≢ 0)
            → Whenever
                (Ended s few)
                (walk_from dev_rw now deep entries memory procs from super_user s dir path)
        from_dir none path linked = tt
        from_dir (some k) path linked = walk_from-Ended s k path few (linked k refl)
