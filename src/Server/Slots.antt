-- ===== src/Server/Slots.antt =====
-- What the parts of a mount and of an unmount change in the superblock table: src/fs/super.c, and
-- src/fs/mount.c over src/fs/path.c.
use brainix_old.Base.{
  ℕ, ◌+◌, ◌^◌, ◌<◌, ◌≡◌, ◌∙◌, sym, ap, leb, refl, Bool, true, false, not, Option, none, some, ltb,
  ◌==◌, inl, inr, Bool-cases, Option-cases, Whenever, Whenever-bind, Whenever-if, arith, update,
  length,
}
use brainix_old.Base.Bytes.{Bytes, copied, set_half}
use brainix_old.Super.{Super, num_supers, no_dev, super_get}
use brainix_old.Super.Find.{Found, super_get-Found}
use brainix_old.Block.{Cache, block_get, block_put, dev_sync, dev_purge}
use brainix_old.Block.Mounts.{
  entry, Mounts, block_get-Mounts, block_put-Mounts, dev_sync-Mounts, dev_purge-Mounts,
}
use brainix_old.Inode.{Fs, inode_get, inode_put, with_block, gotten, changed, robust}
use brainix_old.Inode.Mounts.{
  Kept, KeptIn, gotten-Kept, with_block-Kept, inode_put-Kept, inode_get-Kept,
}
use brainix_old.Device.{dev_to_maj_min, cell, no_pid}
use brainix_old.Path.{Text, Lookup, found, missing, root_ino, path_to_inode}
use brainix_old.Path.Mounts.{path_to_inode-With}
use brainix_old.Server.{Env, State, look_up, put, noted}
use brainix_old.Server.Open.{dev_open_close, heeded, with_device}
use brainix_old.Server.Disk.{
  super_read, super_write, super_block, super_size, cache, with_cache, with_super, set_super,
  super_of,
}
use brainix_old.Server.Mount.{mounted_super, unmounted, finish_mount, finish_umount, valid_fs}

abbrev pub Entries : Type 0
Entries = ℕ → ℕ × (Option ℕ × Option ℕ)

module _ {Dev : Type 0} (e : Env Dev) where
  -- The superblock table has the entries u.
  abbrev pub In : Entries → State Dev → Type 0
  In u s = Mounts u (cache e s)

  abbrev pub With {ℓ} : {A : Type ℓ} → Entries → A × State Dev → Type 0
  With u r = In u r.1

  noted-In :
      (u : Entries) (s : State Dev) (r : Lookup × Fs Dev)
      → KeptIn u e.dev_rw e.now r.1
      → In u (noted e s r.0 r.1)
  noted-In u s (found k, t) h = h
  noted-In u s (missing err, t) h = h

  pub look_up-With :
      (u : Entries) (s : State Dev) (path : Text) → In u s → Whenever (With u) (look_up e s path)
  unfolding look_up
  look_up-With u s path h =
      Whenever-bind (λ r. KeptIn u e.dev_rw e.now r.1) (With u)
        (path_to_inode e.dev_rw e.now e.deep e.entries e.memory e.procs e.from e.super_user
          s.files.root_dir s.files.work_dir s.fs path)
        _
        (path_to_inode-With u e.dev_rw e.now e.deep e.entries e.memory e.procs e.from e.super_user
          s.files.root_dir s.files.work_dir s.fs path h)
        λ r g. noted-In u s r g

  pub put-In : (u : Entries) (s : State Dev) (k : Option ℕ) → In u s → Whenever (In u) (put e s k)
  unfolding put
  put-In u s k h =
      Whenever-bind (KeptIn u e.dev_rw e.now) (In u) (inode_put e.dev_rw e.now s.fs k) _
        (inode_put-Kept u e.dev_rw e.now s.fs k h) λ t g. g

  heeded-In : (u : Entries) (s : State Dev) (r : ℕ) → In u s → In u (heeded e s r)
  heeded-In u s r h = elim (Bool-cases (leb (2 ^ 31) r)) [ inl c ↦ rw c h | inr c ↦ rw c h ]

  pub dev_open_close-In :
      (u : Entries) (s : State Dev) (dev : ℕ) (block open_it : Bool)
      → In u s
      → In u (dev_open_close e s dev block open_it).1
  unfolding dev_open_close
  dev_open_close-In u s dev block open_it h =
      let p = dev_to_maj_min dev in
      let pid = s.driver_pid (cell block p.0) in
      let r = e.driver_open s.fs.cache.device pid p.1 open_it in
      elim (Bool-cases (pid == no_pid)) [
        | inl c ↦ rw c h
        | inr c ↦ rw c (heeded-In u (with_device e s r.0) r.1 h)
      ]

  -- A slot is free, if it is one.
  abbrev pub IsFree : Entries → Option ℕ → Type 0
  IsFree u none = Unit
  IsFree u (some sp) = (sp < num_supers) × ((u sp).0 ≡ no_dev)

  -- A superblock is written whose entry is that of its slot.
  pub set_super-Mounts :
      (u : Entries) (c : Cache Dev Bytes) (sp : ℕ) (x : Super)
      → entry x ≡ entry (c.supers sp)
      → Mounts u c
      → Mounts u (set_super e c sp x)
  set_super-Mounts u c sp x same h j = elim (Bool-cases (j == sp)) [
    | inl q ↦ let q' : j ≡ sp = ground arith in rw (q, q') (same ∙ h sp)
    | inr q ↦ rw q (h j)
  ]

  pub super_read-Free :
      (u : Entries) (c : Cache Dev Bytes) (dev : ℕ)
      → Mounts u c
      → Whenever (λ r. Mounts u r.1 × IsFree u r.0) (super_read e c dev)
  unfolding super_read
  super_read-Free u c dev h = elim (Option-cases (super_get c.supers no_dev)) [
    | inl q ↦ rw (Whenever, q) (h, tt)
    | inr (sp, q) ↦
        rw (Whenever, q)
          (Whenever-bind (Kept u e.dev_rw e.now) (λ r. Mounts u r.1 × IsFree u r.0)
            (with_block e.dev_rw e.now c dev super_block none) _
            (with_block-Kept u e.dev_rw e.now c dev super_block none h)
            λ b g.
              let f : Found c.supers no_dev 0 num_supers (some sp) =
                rw q at (super_get-Found c.supers no_dev) in
              (set_super-Mounts u b.1 sp _ refl g, (f.1, sym (ap (λ p. p.0) (h sp)) ∙ f.2)))
  ]

  -- The slot sp is filled in.
  abbrev pub Filled : Entries → (sp dev : ℕ) → Option ℕ → State Dev → Type 0
  Filled u sp dev point t = (root : ℕ) × In (update u sp (dev, (point, some root))) t

  pub with_super-In :
      (u : Entries) (s : State Dev) (sp : ℕ) (x : Super)
      → In u s
      → In (update u sp (entry x)) (with_super e s sp x)
  with_super-In u s sp x h j = elim (Bool-cases (j == sp)) [
    | inl q ↦ rw q refl
    | inr q ↦ rw q (h j)
  ]

  pub finish_mount-Filled :
      (u : Entries) (s : State Dev) (dev sp : ℕ) (name : Text) (point : Option ℕ)
      → In u s
      → Whenever (Filled u sp dev point) (finish_mount e s dev sp name point)
  unfolding finish_mount mounted_super
  finish_mount-Filled u s dev sp name point h =
      let x = mounted_super (super_of e s sp) e.now dev name point in
      let u1 = update u sp (entry x) in
      let s1 = with_super e s sp x in
      Whenever-if (Filled u sp dev point) (ltb 64 (length name + 1)) none _ tt (
        Whenever-bind (λ r. KeptIn u1 e.dev_rw e.now r.1) (Filled u sp dev point)
          (inode_get e.dev_rw e.now s1.fs dev root_ino) _
          (inode_get-Kept u1 e.dev_rw e.now s1.fs dev root_ino (with_super-In u s sp x h))
          λ root g. (
            root.0,
            λ j. elim (Bool-cases (j == sp)) [
              | inl q ↦
                  let q' : j ≡ sp = ground arith in
                  let there : entry (root.1.cache.supers sp) ≡ entry x =
                    g sp ∙ (let self : (sp == sp) ≡ true = ground arith in rw self refl) in
                  rw q (rw (ap (λ p. p.0) there, ap (λ p. p.1.0) there) refl)
              | inr q ↦ rw q (let k = g j in rw q at k)
            ],
          ))

  pub super_write-Mounts :
      (u : Entries) (c : Cache Dev Bytes) (sp : ℕ)
      → Mounts u c
      → Whenever (Mounts u) (super_write e c sp)
  unfolding super_write
  super_write-Mounts u c sp h =
      let dev = (c.supers sp).dev in
      Whenever-if (Mounts u) (not (c.supers sp).dirty) _ _ h (
        Whenever-bind (Kept u e.dev_rw e.now) (Mounts u)
          (gotten (block_get e.dev_rw e.now c dev super_block)) _
          (gotten-Kept u e.dev_rw e.now (block_get e.dev_rw e.now c dev super_block)
            (block_get-Mounts u e.dev_rw e.now c dev super_block h))
          λ b g.
            let write = λ (d : Bytes). copied d (b.1.supers sp).raw 0 0 super_size in
            Whenever-bind (Mounts u) (Mounts u)
              (block_put e.dev_rw e.now (changed b.1 b.0 (some write)) (some b.0) robust true) _
              (block_put-Mounts u e.dev_rw e.now (changed b.1 b.0 (some write)) (some b.0) robust
                true g)
              λ t k. set_super-Mounts u t sp (record (t.supers sp) { dirty = false }) refl k)

  -- A slot whose file system has been unmounted.
  abbrev pub cleared : Entries → ℕ → Entries
  cleared u sp = update u sp (no_dev, (none, none))

  pub finish_umount-cleared :
      (u : Entries) (s : State Dev) (dev sp : ℕ)
      → In u s
      → Whenever (In (cleared u sp)) (finish_umount e s dev sp)
  unfolding finish_umount
  finish_umount-cleared u s dev sp h =
      let P = In (cleared u sp) in
      let x = super_of e s sp in
      let marked = record x { raw = set_half x.raw 58 valid_fs; dirty = true } in
      let s1 = with_super e s sp marked in
      Whenever-bind (Mounts u) P (super_write e (cache e s1) sp) _
        (super_write-Mounts u (cache e s1) sp (set_super-Mounts u (cache e s) sp marked refl h))
        λ c g.
          let s2 = with_cache e s1 c in
          Whenever-bind (In u) P (put e s2 (super_of e s2 sp).mount_point) _
            (put-In u s2 (super_of e s2 sp).mount_point g)
            λ s3 g3.
              Whenever-bind (In u) P (put e s3 (super_of e s3 sp).root_dir) _
                (put-In u s3 (super_of e s3 sp).root_dir g3)
                λ s4 g4.
                  Whenever-bind (Mounts u) P (dev_sync e.dev_rw e.now (cache e s4) dev) _
                    (dev_sync-Mounts u e.dev_rw e.now (cache e s4) dev g4)
                    λ c' g5.
                      let s5 = with_cache e s4 (dev_purge c' dev) in
                      let s6 = (dev_open_close e s5 dev true false).1 in
                      with_super-In u s6 sp (unmounted (super_of e s6 sp))
                        (dev_open_close-In u s5 dev true false (dev_purge-Mounts u c' dev g5))
