-- ===== src/Server/Mounted.antt =====
-- What mounting and unmounting change in the superblock table: src/fs/mount.c.
use brainix_old.Base.{
  ℕ, ◌<◌, ◌≡◌, ◌≢◌, ◌∙◌, ap, refl, true, false, ◌||◌, not, Option, none, some, ◌==◌, inl, inr, ◌⊎◌,
  Option-cases, Whenever, Whenever-bind, Whenever-if, ◌>>=◌, arith,
}
use brainix_old.Base.Bytes.{half}
use brainix_old.Base.Table.{First, first_where, first_where-First}
use brainix_old.Super.{num_supers, no_dev, super_get}
use brainix_old.Block.Mounts.{Mounts}
use brainix_old.Inode.{is_dir, num_inodes}
use brainix_old.Fildes.{enfile, einval}
use brainix_old.Path.{enotdir, Text, Lookup, found, missing}
use brainix_old.Server.{ebusy, Env, State, look_up, put, minus}
use brainix_old.Server.Open.{dev_open_close}
use brainix_old.Server.Disk.{super_read, cache, with_cache, super_of}
use brainix_old.Server.Slots.{
  Entries, In, With, Filled, IsFree, put-In, dev_open_close-In, look_up-With, super_read-Free,
  finish_mount-Filled, cleared, finish_umount-cleared,
}
use brainix_old.Server.Mount.{
  umount_device, back_out, finish_mount, conflicts, mount_read, mount_on, device_of, mount, is_busy,
  finish_umount, umount, ext2_super_magic, valid_fs,
}

-- No slot has the device, and none the mount point.
abbrev pub New : Entries → (dev point : ℕ) → Type 0
New u dev point = (j : ℕ) → j < num_supers → ((u j).0 ≢ dev) × ((u j).1.0 ≢ some point)

module _ {Dev : Type 0} (e : Env Dev) where
  -- One slot that was free has a device and a mount point that no slot had, and its root directory.
  pub record Added (u : Entries) (t : State Dev) : Type 0 where
    pub chosen : ℕ
    pub dev : ℕ
    pub point : ℕ
    pub in_table : chosen < num_supers
    pub free : (u chosen).0 ≡ no_dev
    pub new : New u dev point
    pub entered : Filled e u chosen dev (some point) t

  -- Nothing is mounted, or one file system more.
  abbrev pub Mounting : Entries → ℕ × State Dev → Type 0
  Mounting u r = With e u r ⊎ ((r.0 ≡ 0) × Added u r.1)

  back_out-With :
      (u : Entries) (s : State Dev) (k : ℕ) (opened : Option ℕ) (r : ℕ)
      → In e u s
      → Whenever (Mounting u) (back_out e s k opened r)
  back_out-With u s k none r h =
      Whenever-bind (In e u) (Mounting u) (put e s (some k)) _ (put-In e u s (some k) h)
        λ t g. inl g
  back_out-With u s k (some dev) r h =
      Whenever-bind (In e u) (Mounting u) (put e s (some k)) _ (put-In e u s (some k) h)
        λ t g. inl (dev_open_close-In e u t dev true false g)

  mount_read-Mounting :
      (u : Entries) (dev k : ℕ) (name : Text) (r : Option ℕ) (s : State Dev)
      → New u dev k
      → In e u s
      → IsFree e u r
      → Whenever (Mounting u) (mount_read e dev k name r s)
  unfolding mount_read
  mount_read-Mounting u dev k name none s new h f = back_out-With u s k (some dev) (minus enfile) h
  mount_read-Mounting u dev k name (some sp) s new h f =
      Whenever-if (Mounting u)
        (not (half (super_of e s sp).raw 56 == ext2_super_magic)
          || not (half (super_of e s sp).raw 58 == valid_fs))
        _ _ (back_out-With u s k (some dev) (minus einval) h)
        (Whenever-bind (Filled e u sp dev (some k)) (Mounting u)
          (finish_mount e s dev sp name (some k)) _
          (finish_mount-Filled e u s dev sp name (some k) h)
          λ t g. inr (
            refl,
            record {
              chosen = sp;
              dev = dev;
              point = k;
              in_table = f.0;
              free = f.1;
              new = new;
              entered = g;
            },
          ))

  conflicts-New :
      (u : Entries) (s : State Dev) (dev k : ℕ)
      → In e u s
      → first_where (conflicts e s dev k) 0 num_supers ≡ none
      → New u dev k
  conflicts-New u s dev k h none_there j lt =
      let f : First (conflicts e s dev k) 0 num_supers none =
        rw none_there at (first_where-First (conflicts e s dev k) 0 num_supers) in
      let clear = f j (omega arith) lt in
      (
        λ same. absurd (let d = ap (λ p. p.0) (h j) ∙ same in ground arith),
        λ same. absurd (
            let p = ap (λ p. p.1.0) (h j) ∙ same in
            let self : (k == k) ≡ true = ground arith in let c = rw p at clear in ground arith),
      )

  mount_on-Mounting :
      (u : Entries) (dev : ℕ) (name : Text) (m : Lookup) (s : State Dev)
      → In e u s
      → Whenever (Mounting u) (mount_on e dev name m s)
  unfolding mount_on
  mount_on-Mounting u dev name (missing err) s h = inl h
  mount_on-Mounting u dev name (found k) s h =
      Whenever-if (Mounting u) (not (is_dir (some (s.fs.inode k)))) _ _
        (back_out-With u s k none (minus enotdir) h)
        (elim (Option-cases (first_where (conflicts e s dev k) 0 num_supers)) [
          | inr (j, q) ↦ rw (Whenever, q) (back_out-With u s k none (minus ebusy) h)
          | inl q ↦
              let t = (dev_open_close e s dev true true).1 in
              let g : In e u t = dev_open_close-In e u s dev true true h in
              rw (Whenever, q)
                (Whenever-if (Mounting u) (not (t.fs.cache.err_code == 0)) _ _
                  (Whenever-bind (In e u) (Mounting u) (put e t (some k)) _
                    (put-In e u t (some k) g) λ w g'. inl g')
                  (Whenever-bind (λ r. Mounts u r.1 × IsFree e u r.0) (Mounting u)
                    (super_read e (cache e t) dev) _ (super_read-Free e u (cache e t) dev g)
                    λ r f.
                      mount_read-Mounting u dev k name r.0 (with_cache e t r.1)
                        (conflicts-New u s dev k h q) f.0 f.1))
        ])

  device_of-With :
      (u : Entries) (m : Lookup) (s : State Dev) → In e u s → Whenever (With e u) (device_of e m s)
  unfolding device_of
  device_of-With u (missing err) s h = h
  device_of-With u (found k) s h =
      Whenever-bind (In e u) (With e u) (put e s (some k)) _ (put-In e u s (some k) h) λ t g. g

  mount_device-Mounting :
      (u : Entries) (name : Text) (d : (Option ℕ × ℕ) × State Dev)
      → With e u d
      → Whenever (Mounting u) (elim d.0.0 [
        | none ↦ some (d.0.1, d.1)
        | some dev ↦ do m ← look_up e d.1 name; mount_on e dev name m.0 m.1
      ])
  mount_device-Mounting u name ((none, r), s) h = inl h
  mount_device-Mounting u name ((some dev, r), s) h =
      Whenever-bind (With e u) (Mounting u) (look_up e s name) _ (look_up-With e u s name h)
        λ m g. mount_on-Mounting u dev name m.0 m.1 g

  pub mount-Mounting :
      (u : Entries) (s : State Dev) (dev_name mount_point_name : Text)
      → In e u s
      → Whenever (Mounting u) (mount e s dev_name mount_point_name)
  unfolding mount
  mount-Mounting u s dev_name mount_point_name h =
      Whenever-if (Mounting u) (not e.super_user) _ _ (inl h) (
        Whenever-bind (With e u) (Mounting u) (look_up e s dev_name) _
          (look_up-With e u s dev_name h)
          λ r g.
            Whenever-bind (With e u) (Mounting u) (device_of e r.0 r.1) _
              (device_of-With u r.0 r.1 g) (mount_device-Mounting u mount_point_name))

  -- Nothing is unmounted, or the file system of one slot is.
  abbrev pub Unmounting : Entries → ℕ × State Dev → Type 0
  Unmounting u r = With e u r ⊎ ((r.0 ≡ 0) × (sp : ℕ) × In e (cleared e u sp) r.1)

  umount_device-Unmounting :
      (u : Entries) (d : (Option ℕ × ℕ) × State Dev)
      → With e u d
      → Whenever (Unmounting u) (umount_device e d)
  unfolding umount_device
  umount_device-Unmounting u ((none, r), s) h = inl h
  umount_device-Unmounting u ((some dev, r), s) h =
      elim (Option-cases (super_get (cache e s).supers dev)) [
        | inl q ↦ rw (Whenever, q) (inl h)
        | inr (sp, q) ↦
            rw (Whenever, q)
              (Whenever-if (Unmounting u) (is_busy e s.fs dev 0 0 num_inodes) _ _ (inl h) (
                Whenever-bind (In e (cleared e u sp)) (Unmounting u) (finish_umount e s dev sp) _
                  (finish_umount-cleared e u s dev sp h) λ t g. inr (refl, sp, g)))
      ]

  pub umount-Unmounting :
      (u : Entries) (s : State Dev) (dev_name : Text)
      → In e u s
      → Whenever (Unmounting u) (umount e s dev_name)
  unfolding umount umount_device
  umount-Unmounting u s dev_name h = Whenever-if (Unmounting u) (not e.super_user) _ _ (inl h) (
      Whenever-bind (With e u) (Unmounting u) (look_up e s dev_name) _
        (look_up-With e u s dev_name h)
        λ r g.
          Whenever-bind (With e u) (Unmounting u) (device_of e r.0 r.1) _
            (device_of-With u r.0 r.1 g) (umount_device-Unmounting u))
