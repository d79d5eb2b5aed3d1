-- ===== src/Block/Sync.antt =====
-- `dev_sync` of src/fs/block.c: the dirty flags that it leaves.
use brainix_old.Base.{
  ℕ, zero, suc, ◌+◌, ◌≤◌, ◌<◌, ◌≡◌, ◌≢◌, refl, ap, ◌∙◌, true, false, Option, none, some, ◌==◌,
  if◌then◌else◌, arith, Bool-cases, Option-cases, inl, inr,
}
use brainix_old.Block.{Cache, DevRw, block_rw, sync_from, dev_sync, num_blocks}
use brainix_old.Block.Cached.{Transferred, block_rw-Transferred}

module _ {Dev Data : Type 0} where
  -- What one round of the loop comes to, at the slot k.
  abbrev Written : Cache Dev Data → (d k : ℕ) → Option (Cache Dev Data) → Type 0
  Written c d k none = ((c.block k).dev ≡ d) × ((c.block k).dirty ≡ true)
  Written c d k (some c') =
      ((j : ℕ) → j ≢ k → c'.block j ≡ c.block j)
      × ((c'.block k).dev ≡ (c.block k).dev)
      × ((c'.block k).blk ≡ (c.block k).blk)
      × ((c'.block k).dev ≡ d → (c'.block k).dirty ≡ false)

  Transferred-Written :
      (c : Cache Dev Data) (d k : ℕ) (r : Option (Cache Dev Data))
      → (c.block k).dev ≡ d
      → Transferred c k r
      → Written c d k r
  Transferred-Written c d k none e t = (e, t.0)
  Transferred-Written c d k (some c') e t = (t.2, t.3, t.4, λ h. t.6)

  -- What the loop comes to from the slot k on, over n slots. Every slot holds the block that it
  -- held, and those of the device are clean; or one of them is dirty and cannot be written.
  abbrev pub Synced : Cache Dev Data → (d k n : ℕ) → Option (Cache Dev Data) → Type 0
  Synced c d k n none =
      (i : ℕ) × (k ≤ i) × (i < k + n) × ((c.block i).dev ≡ d) × ((c.block i).dirty ≡ true)
  Synced c d k n (some c') =
      ((j : ℕ) → j < k → c'.block j ≡ c.block j)
      × ((j : ℕ) → ((c'.block j).dev ≡ (c.block j).dev) × ((c'.block j).blk ≡ (c.block j).blk))
      × ((j : ℕ) → k ≤ j → j < k + n → (c'.block j).dev ≡ d → (c'.block j).dirty ≡ false)

  module _ (dev_rw : DevRw Dev Data) (now : ℕ) (d : ℕ) where
    -- The conditional of the loop.
    abbrev pub one : Cache Dev Data → ℕ → Option (Cache Dev Data)
    one c k = if (c.block k).dev == d then block_rw dev_rw now c k false else some c

    one-Written : (c : Cache Dev Data) (k : ℕ) → Written c d k (one c k)
    one-Written c k = elim (Bool-cases ((c.block k).dev == d)) [
      | inl e ↦ rw e (
          Transferred-Written c d k (block_rw dev_rw now c k false) (ground arith)
            (block_rw-Transferred dev_rw now c k false))
      | inr e ↦ rw e (λ j ne. refl, refl, refl, λ h. absurd (ground arith))
    ]

    -- The rest of the loop, behind the round at the slot k.
    and_on : ℕ → ℕ → Option (Cache Dev Data) → Option (Cache Dev Data)
    and_on k n o = elim o [ none ↦ none | some c' ↦ sync_from dev_rw now d (k + 1) n c' ]

    pub sync_from-none :
        (k n : ℕ) (c : Cache Dev Data) → one c k ≡ none → sync_from dev_rw now d k (suc n) c ≡ none
    unfolding sync_from and_on
    sync_from-none k n c e = ap (and_on k n) e

    pub sync_from-some :
        (k n : ℕ) (c c' : Cache Dev Data)
        → one c k ≡ some c'
        → sync_from dev_rw now d k (suc n) c ≡ sync_from dev_rw now d (k + 1) n c'
    unfolding sync_from and_on
    sync_from-some k n c c' e = ap (and_on k n) e

    Synced-later :
        (c c1 : Cache Dev Data) (k n : ℕ) (r : Option (Cache Dev Data))
        → Written c d k (some c1)
        → Synced c1 d (k + 1) n r
        → Synced c d k (suc n) r
    Synced-later c c1 k n none w s =
        let same = w.0 s.0 (omega (arith, s.1)) in
        (s.0, omega (arith, s.1), omega (arith, s.2), rw (← same) s.3, rw (← same) s.4)
    Synced-later c c1 k n (some c') w s = (
      λ j h. s.0 j (omega arith) ∙ w.0 j (omega arith),
      λ j. elim (Bool-cases (j == k)) [
        | inl e ↦ let e' : j ≡ k = ground arith in rw e' ((s.1 k).0 ∙ w.1, (s.1 k).1 ∙ w.2)
        | inr e ↦ let same = w.0 j (ground arith) in rw (← same) (s.1 j)
      ],
      λ j lo hi h. elim (Bool-cases (j == k)) [
        | inl e ↦
            let e' : j ≡ k = ground arith in
            let kept = s.0 k (omega arith) in rw (e', kept) (w.3 (rw (e', kept) at h))
        | inr e ↦ s.2 j (ground arith) (omega arith) h
      ],
    )

    sync_from-Synced :
        (k n : ℕ) (c : Cache Dev Data) → Synced c d k n (sync_from dev_rw now d k n c)
    sync_from-Synced k zero c =
        unfold sync_from in (λ j h. refl, λ j. (refl, refl), λ j lo hi. absurd (omega arith))
    sync_from-Synced k (suc n) c = elim (Option-cases (one c k)) [
      | inl e ↦
          let w : Written c d k none = rw e at (one-Written c k) in
          rw (sync_from-none k n c e) (k, omega arith, omega arith, w.0, w.1)
      | inr (c1, e) ↦
          let w : Written c d k (some c1) = rw e at (one-Written c k) in
          rw (sync_from-some k n c c1 e) (Synced-later c c1 k n _ w (sync_from-Synced (k + 1) n c1))
    ]

    -- After `dev_sync` every block of the device in the cache is clean, and every slot still holds
    -- the block that it held. It fails only if a block of the device is dirty.
    pub dev_sync_lem : (c : Cache Dev Data) → Synced c d 0 num_blocks (dev_sync dev_rw now c d)
    unfolding dev_sync
    dev_sync_lem c = sync_from-Synced 0 num_blocks c
