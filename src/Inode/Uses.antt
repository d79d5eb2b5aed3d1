-- ===== src/Inode/Uses.antt =====
-- The counts of the users of inodes: inode_get and inode_put of src/fs/inode.c.
use brainix_old.Base.{
  ℕ, ◌+◌, ◌-◌, ◌/◌, ◌%◌, ◌<◌, ◌≡◌, ◌≢◌, refl, sym, ap, ◌∙◌, Bool, true, false, Option, none, some,
  ltb, ◌==◌, arith, if◌then◌else◌, Bool-cases, inl, inr, Whenever, Whenever-mono,
}
use brainix_old.Block.{DevRw}
use brainix_old.Inode.{
  Fs, Inode, Bytes, i_flags, noatime, set_word, set_inode, inode_rw, inode_put, inode_get,
}
use brainix_old.Inode.Table.{Moved, inode_rw-Moved, Gotten, inode_get_lem}

eq_self : (k : ℕ) → (k == k) ≡ true
eq_self k = ground arith

module _ {Dev : Type 0} where
  abbrev pub uses : Fs Dev → ℕ → ℕ
  uses s j = (s.inode j).count

  -- The inode in slot j has n users, and its bytes are as in u if somebody uses it there.
  abbrev pub UsedBy : (u s : Fs Dev) → (j n : ℕ) → Type 0
  UsedBy u s j n = (uses s j ≡ n) × (uses u j ≢ 0 → (s.inode j).raw ≡ (u.inode j).raw)

  -- Each inode has the users that it has in u, the one in slot k one more.
  abbrev pub Holding : (u s : Fs Dev) → (k : ℕ) → Type 0
  Holding u s k = (j : ℕ) → UsedBy u s j (if j == k then uses u j + 1 else uses u j)

  abbrev pub Free : (u s : Fs Dev) → Type 0
  Free u s = (j : ℕ) → UsedBy u s j (uses u j)

  module _ (dev_rw : DevRw Dev Bytes) (now : ℕ) (u : Fs Dev) (few : (j : ℕ) → uses u j < 255) where
    put_at :
        (s : Fs Dev) (k : ℕ) (i : Inode)
        → Holding u s k
        → i.count ≡ uses u k
        → (uses u k ≢ 0 → i.raw ≡ (u.inode k).raw)
        → Free u (set_inode s k i)
    put_at s k i h e r j = elim (Bool-cases (j == k)) [
      | inl c ↦ let same : j ≡ k = ground arith in rw (same, uses) (rw (eq_self k) (e, r))
      | inr c ↦ rw (uses, c) (let at = h j in (at.0 ∙ rw c refl, at.1))
    ]

    rewritten :
        (s : Fs Dev) (k : ℕ) (read : Bool)
        → Free u s
        → uses u k ≡ 0
        → Whenever (Free u) (inode_rw dev_rw now s k read)
    rewritten s k read h z =
        Whenever-mono (Moved s k) (Free u) (inode_rw dev_rw now s k read)
          (inode_rw-Moved dev_rw now s k read)
          λ t v j. elim (Bool-cases (j == k)) [
            | inl c ↦
                let same : j ≡ k = ground arith in
                rw same (v.count ∙ (h k).0, λ used. absurd (used z))
            | inr c ↦
                let other = v.others j (ground arith) in
                (ap (λ x. x.count) other ∙ (h j).0, λ used. ap (λ x. x.raw) other ∙ (h j).1 used)
          ]

    some_Gotten :
        (s : Fs Dev) (d ino : ℕ) (r : Option (ℕ × Fs Dev))
        → Gotten dev_rw now s d ino r
        → Whenever (λ r. Gotten dev_rw now s d ino (some r)) r
    some_Gotten s d ino none g = tt
    some_Gotten s d ino (some (k, t)) g = g

    pub inode_put-Free :
        (s : Fs Dev) (k : ℕ) → Holding u s k → Whenever (Free u) (inode_put dev_rw now s (some k))
    unfolding inode_put
    inode_put-Free s k h =
        let same : (k == k) ≡ true = ground arith in
        let here : uses s k ≡ uses u k + 1 = (h k).0 ∙ rw same refl in
        let less : (uses s k + 255) % 256 ≡ uses u k = (let lt = few k in omega arith) in
        let i : Inode = record (s.inode k) { count = (uses s k + 255) % 256 } in
        let used : Inode = record i { raw = set_word i.raw 8 now; dirty = true } in
        elim (Bool-cases (ltb 0 ((uses s k + 255) % 256))) [
          | inl c ↦ rw c (put_at s k i h less (h k).1)
          | inr c ↦
              let nobody : uses u k ≡ 0 = ground arith in
              elim (Bool-cases (i_flags i / noatime % 2 == 1)) [
                | inl f ↦
                    rw (c, f)
                      (rewritten (set_inode s k i) k false (put_at s k i h less (h k).1) nobody)
                | inr f ↦
                    rw (c, f)
                      (rewritten (set_inode s k used) k false
                        (put_at s k used h less (λ z. absurd (z nobody))) nobody)
              ]
        ]

    pub inode_get-Holding :
        (s : Fs Dev) (d ino : ℕ)
        → Free u s
        → Whenever (λ r. Holding u r.1 r.0) (inode_get dev_rw now s d ino)
    inode_get-Holding s d ino h =
        Whenever-mono (λ r. Gotten dev_rw now s d ino (some r)) (λ r. Holding u r.1 r.0)
          (inode_get dev_rw now s d ino)
          (some_Gotten s d ino (inode_get dev_rw now s d ino) (inode_get_lem dev_rw now s d ino))
          λ r g j. elim (Bool-cases (j == r.0)) [
            | inl c ↦
                let same : j ≡ r.0 = ground arith in
                rw (same, eq_self r.0)
                  (elim g.4 [
                    | inl old ↦
                        let before = (h r.0).0 in
                        let lt = few r.0 in
                        let after = old.1 in (omega arith, λ used. old.2 ∙ (h r.0).1 used)
                    | inr new ↦
                        let before = (h r.0).0 in
                        let zero_used : uses s r.0 ≡ 0 = (let f = new.1.2 in ground arith) in
                        let after = new.2 in
                        (omega arith, λ used. absurd (used (sym before ∙ zero_used)))
                  ])
            | inr c ↦
                let other = g.3 j (ground arith) in
                rw c
                  (ap (λ x. x.count) other ∙ (h j).0, λ used. ap (λ x. x.raw) other ∙ (h j).1 used)
          ]

  -- One user less of the inode in slot k, whatever its bytes are.
  pub inode_put-uses :
      (dev_rw : DevRw Dev Bytes) (now : ℕ) (s : Fs Dev) (k : ℕ)
      → 0 < uses s k
      → uses s k < 256
      → ((j : ℕ) → j ≢ k → uses s j < 255)
      → Whenever
          (λ t. (j : ℕ) → uses t j ≡ (if j == k then uses s k - 1 else uses s j))
          (inode_put dev_rw now s (some k))
  inode_put-uses dev_rw now s k pos top few =
      let u : Fs Dev = set_inode s k (record (s.inode k) { count = uses s k - 1 }) in
      Whenever-mono (Free u) (λ t. (j : ℕ) → uses t j ≡ (if j == k then uses s k - 1 else uses s j))
        (inode_put dev_rw now s (some k))
        (inode_put-Free dev_rw now u (less s k top few) s k (more s k pos))
        λ t f j. (f j).0 ∙ cleared s k j
    where
      less :
          (s : Fs Dev) (k : ℕ)
          → uses s k < 256
          → ((j : ℕ) → j ≢ k → uses s j < 255)
          → (j : ℕ) → uses (set_inode s k (record (s.inode k) { count = uses s k - 1 })) j < 255
      less s k top few j = elim (Bool-cases (j == k)) [
        | inl c ↦ rw (uses, c) (omega arith)
        | inr c ↦ rw (uses, c) (few j (ground arith))
      ]

      cleared :
          (s : Fs Dev) (k j : ℕ)
          → uses (set_inode s k (record (s.inode k) { count = uses s k - 1 })) j
            ≡ (if j == k then uses s k - 1 else uses s j)
      cleared s k j = elim (Bool-cases (j == k)) [
        | inl c ↦ rw (uses, c) refl
        | inr c ↦ rw (uses, c) refl
      ]

      more :
          (s : Fs Dev) (k : ℕ)
          → 0 < uses s k
          → Holding (set_inode s k (record (s.inode k) { count = uses s k - 1 })) s k
      more s k pos j = elim (Bool-cases (j == k)) [
        | inl c ↦
            let same : j ≡ k = ground arith in
            (rw (uses, c, same) (omega arith), λ z. rw c (ap (λ i. (s.inode i).raw) same))
        | inr c ↦ (rw (uses, c) refl, λ z. rw c refl)
      ]
