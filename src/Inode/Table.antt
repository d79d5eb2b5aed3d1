-- ===== src/Inode/Table.antt =====
-- Getting an inode: inode_get of src/fs/inode.c.
use brainix_old.Base.{
  ℕ, ◌+◌, ◌%◌, ◌^◌, ◌<◌, ◌≡◌, ◌≢◌, ◌⊎◌, inl, inr, refl, sym, ap, ◌∙◌, Bool, true, false, ◌&&◌, ltb,
  ◌==◌, Option, none, some, arith, if◌then◌else◌, Bool-cases, Whenever, ◌>>=◌, Option-cases,
}
use brainix_old.Base.Table.{first_where, First, first_where-First}
use brainix_old.Super.{no_dev, super_get, s_inode_size}
use brainix_old.Block.{DevRw, Cache}
use brainix_old.Inode.{
  Fs, Bytes, copied, on_device, group_find, with_block, set_inode, inode_rw, inode_get, get_from,
  take_free, num_inodes,
}

module _ {Dev : Type 0} where
  abbrev pub held : Fs Dev → (d ino : ℕ) → ℕ → Bool
  held s d ino k = ((s.inode k).dev == d) && ((s.inode k).ino == ino)

  abbrev pub unused : Fs Dev → ℕ → Bool
  unused s k = (s.inode k).count == 0

  -- No two slots hold the same inode.
  abbrev pub Unique : Fs Dev → Type 0
  Unique s =
      (i j : ℕ)
      → i < num_inodes
      → j < num_inodes
      → (s.inode i).dev ≢ no_dev
      → (s.inode i).dev ≡ (s.inode j).dev
      → (s.inode i).ino ≡ (s.inode j).ino
      → i ≡ j

  -- Only the bytes and the mark of the inode in slot k may have changed.
  pub record Moved (s : Fs Dev) (k : ℕ) (t : Fs Dev) : Type 0 where
    pub others : (j : ℕ) → j ≢ k → t.inode j ≡ s.inode j
    pub dev : (t.inode k).dev ≡ (s.inode k).dev
    pub ino : (t.inode k).ino ≡ (s.inode k).ino
    pub count : (t.inode k).count ≡ (s.inode k).count
    pub mounted : (t.inode k).mounted ≡ (s.inode k).mounted
    pub clean : (t.inode k).dirty ≡ false

  set_inode-Moved :
      (s : Fs Dev) (k : ℕ) (raw : Bytes) (c : Cache Dev Bytes)
      → Moved s k
          (record (set_inode s k (record (s.inode k) { raw = raw; dirty = false })) { cache = c })
  set_inode-Moved s k raw c =
      let here : (k == k) ≡ true = ground arith in
      record {
        others = λ j ne. let far : (j == k) ≡ false = ground arith in rw far refl;
        dev = rw here refl;
        ino = rw here refl;
        count = rw here refl;
        mounted = rw here refl;
        clean = rw here refl;
      }

  -- The state in which a slot is read in.
  abbrev claimed : Fs Dev → (d ino k : ℕ) → Fs Dev
  claimed s d ino k =
      set_inode s k
        (record (s.inode k) { dev = d; ino = ino; count = 1; mounted = false; dirty = true })

  module _ (dev_rw : DevRw Dev Bytes) (now : ℕ) where
    -- Reading or writing an inode.
    pub inode_rw-Moved :
        (s : Fs Dev) (k : ℕ) (read : Bool) → Whenever (Moved s k) (inode_rw dev_rw now s k read)
    unfolding inode_rw
    inode_rw-Moved s k read =
        let i = s.inode k in
        elim (Bool-cases i.dirty) [
          | inr d ↦ rw d (record {
            others = λ j ne. refl;
            dev = refl;
            ino = refl;
            count = refl;
            mounted = refl;
            clean = d;
          })
          | inl d ↦ elim (Option-cases (group_find dev_rw now s.cache i.dev i.ino)) [
            | inl e ↦ rw (d, e) tt
            | inr (place, e) ↦ elim (Option-cases (super_get s.cache.supers i.dev)) [
              | inl e' ↦ rw (d, e, e') tt
              | inr (sp, e') ↦
                  rw (d, e, e')
                    (copied_in s k read place.0 place.1.0 (s_inode_size (s.cache.supers sp))
                      place.1.1)
            ]
          ]
        ]
      where
        copied_in :
            (s : Fs Dev) (k : ℕ) (read : Bool) (blk offset size : ℕ) (c : Cache Dev Bytes)
            → let i = s.inode k in
              let write = λ (b : Bytes). copied b i.raw offset 0 size in
              Whenever (Moved s k) (
                with_block dev_rw now c i.dev blk (if read then none else some write) >>= λ done.
                if ltb on_device size
                then none
                else some
                    (record (set_inode s k (record i {
                      raw = if read then copied i.raw done.0 0 offset size else i.raw;
                      dirty = false;
                    })) { cache = done.1 }))
        copied_in s k read blk offset size c =
            let i = s.inode k in
            let write = λ (b : Bytes). copied b i.raw offset 0 size in
            elim (Option-cases
              (with_block dev_rw now c i.dev blk (if read then none else some write))) [
                | inl e ↦ rw e tt
                | inr (done, e) ↦ elim (Bool-cases (ltb on_device size)) [
                  | inl big ↦ rw (e, big) tt
                  | inr small ↦ rw (e, small) (set_inode-Moved s k _ done.1)
                ]
              ]

    -- What `inode_get` may come to.
    abbrev pub Gotten : Fs Dev → (d ino : ℕ) → Option (ℕ × Fs Dev) → Type 0
    Gotten s d ino none =
        ((k : ℕ) → k < num_inodes → held s d ino k ≡ false)
        × (((k : ℕ) → k < num_inodes → (s.inode k).count ≢ 0)
            ⊎ ((k : ℕ) × First (unused s) 0 num_inodes (some k)
                × (inode_rw dev_rw now (claimed s d ino k) k true ≡ none)))
    Gotten s d ino (some (k, t)) =
        (k < num_inodes)
        × ((t.inode k).dev ≡ d)
        × ((t.inode k).ino ≡ ino)
        × ((j : ℕ) → j ≢ k → t.inode j ≡ s.inode j)
        × (((held s d ino k ≡ true)
              × ((t.inode k).count ≡ ((s.inode k).count + 1) % 2 ^ 8)
              × ((t.inode k).raw ≡ (s.inode k).raw)
              × ((j : ℕ) → j < k → held s d ino j ≡ false))
            ⊎ (((j : ℕ) → j < num_inodes → held s d ino j ≡ false)
                × First (unused s) 0 num_inodes (some k)
                × ((t.inode k).count ≡ 1)
                × ((t.inode k).mounted ≡ false)))

    fresh :
        (s t : Fs Dev) (d ino k : ℕ)
        → ((j : ℕ) → j < num_inodes → held s d ino j ≡ false)
        → First (unused s) 0 num_inodes (some k)
        → Moved (claimed s d ino k) k t
        → Gotten s d ino (some (k, t))
    fresh s t d ino k absent f v =
        let here : (k == k) ≡ true = ground arith in
        (
          f.1,
          rw (v.dev, here) refl,
          rw (v.ino, here) refl,
          λ j ne. v.others j ne ∙ ground arith,
          inr (absent, f, rw (v.count, here) refl, rw (v.mounted, here) refl),
        )

    take_free-Gotten :
        (s : Fs Dev) (d ino : ℕ) (r : Option ℕ)
        → ((j : ℕ) → j < num_inodes → held s d ino j ≡ false)
        → First (unused s) 0 num_inodes r
        → Gotten s d ino (take_free dev_rw now s d ino r)
    unfolding take_free
    take_free-Gotten s d ino none absent f =
        (absent, inl (λ k lt. let busy = f k (omega arith) lt in ground arith))
    take_free-Gotten s d ino (some k) absent f =
        elim (Option-cases (inode_rw dev_rw now (claimed s d ino k) k true)) [
          | inl e ↦ rw e (absent, inr (k, f, e))
          | inr (t, e) ↦
              let v : Moved (claimed s d ino k) k t =
                rw e at (inode_rw-Moved (claimed s d ino k) k true) in
              rw e (fresh s t d ino k absent f v)
        ]

    get_from-Gotten :
        (s : Fs Dev) (d ino : ℕ) (r : Option ℕ)
        → First (held s d ino) 0 num_inodes r
        → Gotten s d ino (get_from dev_rw now s d ino r)
    unfolding get_from
    get_from-Gotten s d ino none f =
        take_free-Gotten s d ino (first_where (unused s) 0 num_inodes)
          (λ j lt. f j (omega arith) lt) (first_where-First (unused s) 0 num_inodes)
    get_from-Gotten s d ino (some k) f =
        let here : (k == k) ≡ true = ground arith in
        let same = f.2 in
        (
          f.1,
          rw here (ground arith),
          rw here (ground arith),
          λ j ne. ground arith,
          inl (same, rw here refl, rw here refl, λ j lt. f.3 j (omega arith) lt),
        )

    -- An inode that `inode_get` returns is in its slot, which is the first that held it, with one
    -- use more, or else the first that nobody used, with one use. No other slot has changed. Without
    -- a result no slot held the inode, and either every slot was in use, or reading the inode into
    -- the first free slot failed.
    pub inode_get_lem : (s : Fs Dev) (d ino : ℕ) → Gotten s d ino (inode_get dev_rw now s d ino)
    unfolding inode_get
    inode_get_lem s d ino =
        get_from-Gotten s d ino (first_where (held s d ino) 0 num_inodes)
          (first_where-First (held s d ino) 0 num_inodes)

    clash :
        (s t : Fs Dev) (d ino k j : ℕ)
        → Unique s
        → Gotten s d ino (some (k, t))
        → j < num_inodes
        → d ≢ no_dev
        → held s d ino j ≡ true
        → k ≡ j
    clash s t d ino k j u g lt ne h = elim g.4 [
      | inl old ↦ let old' = old.0 in u k j g.0 lt (ground arith) (ground arith) (ground arith)
      | inr new ↦ let no = new.0 j lt in absurd (ground arith)
    ]

    apart :
        (s t : Fs Dev) (d ino k j : ℕ)
        → Unique s
        → Gotten s d ino (some (k, t))
        → j < num_inodes
        → (t.inode k).dev ≢ no_dev
        → (t.inode k).dev ≡ (t.inode j).dev
        → (t.inode k).ino ≡ (t.inode j).ino
        → j ≢ k
        → ⊥
    apart s t d ino k j u g lt ne ed ei far =
        let same = g.3 j far in
        let dev : (s.inode j).dev ≡ d = ap (λ x. x.dev) (sym same) ∙ sym ed ∙ g.1 in
        let num : (s.inode j).ino ≡ ino = ap (λ x. x.ino) (sym same) ∙ sym ei ∙ g.2 in
        far (sym (clash s t d ino k j u g lt (λ z. ne (g.1 ∙ z)) (ground arith)))

    Gotten-Unique :
        (s t : Fs Dev) (d ino k : ℕ) → Unique s → Gotten s d ino (some (k, t)) → Unique t
    Gotten-Unique s t d ino k u g i j li lj ne ed ei = elim (Bool-cases (i == k)) [
      | inl a ↦ elim (Bool-cases (j == k)) [
        | inl b ↦ ground arith
        | inr b ↦
            let i' : k ≡ i = ground arith in
            absurd (apart s t d ino k j u g lj (rw i' ne) (rw i' ed) (rw i' ei) (ground arith))
      ]
      | inr a ↦ elim (Bool-cases (j == k)) [
        | inl b ↦
            let j' : k ≡ j = ground arith in
            absurd (
              apart s t d ino k i u g li (rw j' (λ z. ne (ed ∙ z))) (rw j' (sym ed))
                (rw j' (sym ei)) (ground arith))
        | inr b ↦
            let fi = ap (λ x. x.dev) (g.3 i (ground arith)) in
            let fj = ap (λ x. x.dev) (g.3 j (ground arith)) in
            let gi = ap (λ x. x.ino) (g.3 i (ground arith)) in
            let gj = ap (λ x. x.ino) (g.3 j (ground arith)) in
            u i j li lj (λ z. ne (fi ∙ z)) (sym fi ∙ ed ∙ fj) (sym gi ∙ ei ∙ gj)
      ]
    ]

    -- No two slots come to hold the same inode.
    pub inode_get-Unique :
        (s : Fs Dev) (d ino : ℕ)
        → Unique s
        → Whenever (λ r. Unique r.1) (inode_get dev_rw now s d ino)
    inode_get-Unique s d ino u = elim (Option-cases (inode_get dev_rw now s d ino)) [
      | inl e ↦ rw e tt
      | inr (r, e) ↦
          let g : Gotten s d ino (some r) = rw e at (inode_get_lem s d ino) in
          rw e (Gotten-Unique s r.1 d ino r.0 u g)
    ]
