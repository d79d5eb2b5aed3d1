-- ===== src/Perm/Grant.antt =====
-- Which accesses are granted: perm of src/fs/perm.c.
use Prim.Native.Nat.{bit_or}
use brainix_old.Base.{
  ℕ, ◌/◌, ◌%◌, ◌≤◌, ◌<◌, ◌≡◌, ◌≢◌, Bool-cases, ◌↔◌, ◌⊎◌, inl, inr, refl, Bool, true, false, ◌||◌,
  ◌==◌, some, arith, if◌then◌else◌, ==_iff,
}
use brainix_old.Base.Bits.{or_within, or_zero}
use brainix_old.Process.{Procs}
use brainix_old.Inode.{Inode, i_mode, i_uid, i_gid}
use brainix_old.Perm.{perm, permitted}

-- Every right that is asked for is granted: executing, writing and reading, from the lowest bit on.
abbrev pub Within : (requested granted : ℕ) → Type 0
Within a b = (a % 2 ≤ b % 2) × (a / 2 % 2 ≤ b / 2 % 2) × (a / 4 % 2 ≤ b / 4 % 2)

Within-iff : (a b : ℕ) → a < 8 → (bit_or a b ≡ b) ↔ Within a b
Within-iff a b h =
    let one = or_within a b in
    let two = or_within (a / 2) (b / 2) in
    let three = or_within (a / 2 / 2) (b / 2 / 2) in
    let high : a / 2 / 2 / 2 ≡ 0 = omega arith in
    (
      λ e.
          (let f = one.0 e in
            let g = two.0 f.1 in let k = three.0 g.1 in (f.0, g.0, omega (arith, k.0))),
      λ w.
          one.1 (w.0, two.1 (w.1, three.1 (omega (arith, w.2), rw high (or_zero (b / 2 / 2 / 2))))),
    )

module _ (s : Procs) (from : ℕ) (super_user : Bool) (i : Inode) (requested : ℕ)
    (access : Bool) where
  -- The rights of the class that the process is in: the owner's, else the group's, else the others'.
  abbrev rights : ℕ
  rights =
      let p = s.proc from in
      permitted i (if access then p.gid else p.egid) (if access then p.uid else p.euid)

  perm-rights :
      requested < 8
      → (perm s from super_user (some i) requested access ≡ true)
        ↔ ((super_user ≡ true) ⊎ Within requested rights)
  unfolding perm
  perm-rights h = granted super_user
    where
      granted :
          (b : Bool)
          → ((b || (bit_or requested rights == rights)) ≡ true)
            ↔ ((b ≡ true) ⊎ Within requested rights)
      granted true = (λ e. inl refl, λ w. refl)
      granted false = (
        λ e. inr ((Within-iff requested rights h).0 ((==_iff _ _).0 e)),
        λ w. elim w [
          | inl t ↦ absurd (ground arith)
          | inr w' ↦ (==_iff _ _).1 ((Within-iff requested rights h).1 w')
        ],
      )

  -- The user and the group that the process acts as: the real ones for access(), else the effective.
  abbrev pub user : ℕ
  user = if access then (s.proc from).uid else (s.proc from).euid

  abbrev pub group : ℕ
  group = if access then (s.proc from).gid else (s.proc from).egid

  -- The process is the owner of the file, and the owner's rights suffice; or it is not the owner but
  -- in the group of the file, and the group's rights do; or it is neither, and the others' rights do.
  -- They are the bits 6 to 8, 3 to 5 and 0 to 2 of the mode.
  abbrev pub Entitled : Type 0
  Entitled =
      ((user ≡ i_uid i) × Within requested (i_mode i / 64 % 8))
      ⊎ (((user ≢ i_uid i) × (group ≡ i_gid i) × Within requested (i_mode i / 8 % 8))
          ⊎ ((user ≢ i_uid i) × (group ≢ i_gid i) × Within requested (i_mode i % 8)))

  rights-Entitled : Within requested rights ↔ Entitled
  unfolding permitted
  rights-Entitled = elim (Bool-cases (user == i_uid i)) [
    | inl u ↦ rw u (
        let same : user ≡ i_uid i = ground arith in
        (
          λ w. inl (same, w),
          λ h. elim h [
            | inl o ↦ o.1
            | inr (inl o) ↦ absurd (o.0 same)
            | inr (inr o) ↦ absurd (o.0 same)
          ],
        ))
    | inr u ↦ rw u (elim (Bool-cases (group == i_gid i)) [
      | inl g ↦ rw g (
          let same : group ≡ i_gid i = ground arith in
          (
            λ w. inr (inl (λ q. absurd (ground arith), same, w)),
            λ h. elim h [
              | inl o ↦ absurd (let q = o.0 in ground arith)
              | inr (inl o) ↦ o.2
              | inr (inr o) ↦ absurd (o.1 same)
            ],
          ))
      | inr g ↦ rw g (
          (
            λ w. inr (inr (λ q. absurd (ground arith), λ q. absurd (ground arith), w)),
            λ h. elim h [
              | inl o ↦ absurd (let q = o.0 in ground arith)
              | inr (inl o) ↦ absurd (let q = o.1 in ground arith)
              | inr (inr o) ↦ o.2
            ],
          ))
    ])
  ]

  -- `perm` grants an access, asked for by three bits, exactly if the caller is the super user, or
  -- the one class of users that it is in has all the rights that are asked for: the owner, or else
  -- the group, or else the others, by the real user and group for access(), else by the effective.
  pub perm_lem :
      requested < 8
      → (perm s from super_user (some i) requested access ≡ true) ↔ ((super_user ≡ true) ⊎ Entitled)
  perm_lem h = (
    λ e. elim ((perm-rights h).0 e) [ inl u ↦ inl u | inr w ↦ inr (rights-Entitled.0 w) ],
    λ t. (perm-rights h).1 (elim t [ inl u ↦ inl u | inr w ↦ inr (rights-Entitled.1 w) ]),
  )
