-- ===== src/Server/Once.antt =====
-- A device is mounted once, and on a directory one: mount() and umount() of src/fs/mount.c, one
-- after the other.
use brainix_old.Base.{
  ℕ, ◌<◌, ◌≡◌, ◌≢◌, ◌∙◌, sym, ap, refl, Option, none, some, ◌==◌, inl, inr, Bool-cases, Whenever,
  Whenever-bind, Whenever-mono, ◌>>=◌, arith, update, List, [], ◌∷◌,
}
use brainix_old.Super.{num_supers, no_dev}
use brainix_old.Block.Mounts.{entry}
use brainix_old.Path.{Text}
use brainix_old.Server.{Env, State}
use brainix_old.Server.Disk.{super_of}
use brainix_old.Server.Mount.{mount, umount}
use brainix_old.Server.Slots.{Entries}
use brainix_old.Server.Mounted.{New, Mounting, mount-Mounting, Unmounting, umount-Unmounting}

-- No two slots have the same device, and no two the same mount point.
abbrev pub Once : Entries → Type 0
Once u =
    ((j k : ℕ) → j < num_supers → k < num_supers → (u j).0 ≢ no_dev → (u j).0 ≡ (u k).0 → j ≡ k)
    × ((j k m : ℕ)
        → j < num_supers
        → k < num_supers
        → (u j).1.0 ≡ some m
        → (u k).1.0 ≡ some m
        → j ≡ k)

Once-≡ : (u v : Entries) → ((j : ℕ) → v j ≡ u j) → Once u → Once v
Once-≡ u v same once = (
  λ j k lt lt' mounted eq.
      once.0 j k lt lt' (rw (same j) at mounted)
        (sym (ap (λ p. p.0) (same j)) ∙ eq ∙ ap (λ p. p.0) (same k)),
  λ j k m lt lt' e e'.
      once.1 j k m lt lt' (sym (ap (λ p. p.1.0) (same j)) ∙ e)
        (sym (ap (λ p. p.1.0) (same k)) ∙ e'),
)

Once-filled :
    (u : Entries) (sp dev point : ℕ) (root : Option ℕ)
    → New u dev point
    → Once u
    → Once (update u sp (dev, (some point, root)))
Once-filled u sp dev point root new once = (
  λ j k lt lt'. elim (Bool-cases (j == sp)) [
    | inl q ↦ elim (Bool-cases (k == sp)) [
      | inl q' ↦ λ mounted eq. ground arith
      | inr q' ↦ rw (q, q') λ mounted eq. absurd ((new k lt').0 (sym eq))
    ]
    | inr q ↦ elim (Bool-cases (k == sp)) [
      | inl q' ↦ rw (q, q') λ mounted eq. absurd ((new j lt).0 eq)
      | inr q' ↦ rw (q, q') (once.0 j k lt lt')
    ]
  ],
  λ j k m lt lt'. elim (Bool-cases (j == sp)) [
    | inl q ↦ elim (Bool-cases (k == sp)) [
      | inl q' ↦ λ e e'. ground arith
      | inr q' ↦ rw (q, q') λ e e'. absurd ((new k lt').1 (e' ∙ sym e))
    ]
    | inr q ↦ elim (Bool-cases (k == sp)) [
      | inl q' ↦ rw (q, q') λ e e'. absurd ((new j lt).1 (e ∙ sym e'))
      | inr q' ↦ rw (q, q') (once.1 j k m lt lt')
    ]
  ],
)

Once-cleared : (u : Entries) (sp : ℕ) → Once u → Once (update u sp (no_dev, (none, none)))
Once-cleared u sp once = (
  λ j k lt lt'. elim (Bool-cases (j == sp)) [
    | inl q ↦ rw q λ mounted eq. absurd (mounted refl)
    | inr q ↦ elim (Bool-cases (k == sp)) [
      | inl q' ↦ rw (q, q') λ mounted eq. absurd (mounted eq)
      | inr q' ↦ rw (q, q') (once.0 j k lt lt')
    ]
  ],
  λ j k m lt lt'. elim (Bool-cases (j == sp)) [
    | inl q ↦ rw q λ e e'. ground arith
    | inr q ↦ elim (Bool-cases (k == sp)) [
      | inl q' ↦ rw (q, q') λ e e'. ground arith
      | inr q' ↦ rw (q, q') (once.1 j k m lt lt')
    ]
  ],
)

pub data MountCall : Type 0 where
  mounting : (dev_name mount_point_name : Text) → MountCall
  unmounting : (dev_name : Text) → MountCall

module _ {Dev : Type 0} (e : Env Dev) where
  -- What the superblock table says of its slots.
  abbrev pub table : State Dev → Entries
  table s j = entry (super_of e s j)

  unfoldable pub call : MountCall → State Dev → Option (ℕ × State Dev)
  call (mounting dev_name mount_point_name) s = mount e s dev_name mount_point_name
  call (unmounting dev_name) s = umount e s dev_name

  -- One call after the other.
  unfoldable pub calls : List MountCall → State Dev → Option (State Dev)
  calls [] s = some s
  calls (c ∷ cs) s = do r ← call c s; calls cs r.1

  Mounting-Once : (u : Entries) (r : ℕ × State Dev) → Once u → Mounting e u r → Once (table r.1)
  Mounting-Once u r once (inl h) = Once-≡ u (table r.1) h once
  Mounting-Once u r once (inr (z, a)) =
      Once-≡ _ (table r.1) a.entered.1
        (Once-filled u a.chosen a.dev a.point (some a.entered.0) a.new once)

  Unmounting-Once : (u : Entries) (r : ℕ × State Dev) → Once u → Unmounting e u r → Once (table r.1)
  Unmounting-Once u r once (inl h) = Once-≡ u (table r.1) h once
  Unmounting-Once u r once (inr (z, sp, h)) = Once-≡ _ (table r.1) h (Once-cleared u sp once)

  call-Once :
      (c : MountCall) (s : State Dev) → Once (table s) → Whenever (λ r. Once (table r.1)) (call c s)
  unfolding call
  call-Once (mounting dev_name mount_point_name) s once =
      Whenever-mono (Mounting e (table s)) (λ r. Once (table r.1)) _
        (mount-Mounting e (table s) s dev_name mount_point_name λ j. refl)
        λ r h. Mounting-Once (table s) r once h
  call-Once (unmounting dev_name) s once =
      Whenever-mono (Unmounting e (table s)) (λ r. Once (table r.1)) _
        (umount-Unmounting e (table s) s dev_name λ j. refl)
        λ r h. Unmounting-Once (table s) r once h

  -- If no device is mounted twice, and no directory has two file systems mounted on it, this is so
  -- after any calls of mount() and umount(), whether they succeed or fail.
  pub calls-Once :
      (cs : List MountCall) (s : State Dev)
      → Once (table s)
      → Whenever (λ t. Once (table t)) (calls cs s)
  unfolding calls
  calls-Once [] s once = once
  calls-Once (c ∷ cs) s once =
      Whenever-bind (λ r. Once (table r.1)) (λ t. Once (table t)) (call c s) _ (call-Once c s once)
        λ r h. calls-Once cs r.1 h

  -- A call of mount() leaves the devices, mount points and root directories of the superblock table
  -- as they are, or it returns 0 and has filled in one slot that was free, with a device and a mount
  -- point that no slot had.
  pub mount-Mounted :
      (s : State Dev) (dev_name mount_point_name : Text)
      → Whenever (Mounting e (table s)) (mount e s dev_name mount_point_name)
  mount-Mounted s dev_name mount_point_name =
      mount-Mounting e (table s) s dev_name mount_point_name λ j. refl
