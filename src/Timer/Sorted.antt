-- ===== src/Timer/Sorted.antt =====
-- The lists of src/kernel/timer.c as maps: a list that is sorted by time and has at most one entry
-- for each key gives each key the time when it is due.
use brainix_old.Base.{
  ℕ, ◌≤◌, ◌≡◌, ◌≢◌, refl, Option, none, some, List, [], ◌∷◌, ltb, ◌==◌, if◌then◌else◌, arith,
  Bool-cases, inl, inr,
}
use brainix_old.Timer.{take_first, insert}

module _ {E : Type 0} (time key : E → ℕ) where
  -- No entry is due before the given time.
  abbrev pub From : ℕ → List E → Type 0
  From n [] = Unit {0}
  From n (x ∷ xs) = (n ≤ time x) × From n xs

  abbrev pub Ascending : List E → Type 0
  Ascending [] = Unit {0}
  Ascending (x ∷ xs) = From (time x) xs × Ascending xs

  -- When the first entry for a key is due.
  abbrev pub due : ℕ → List E → Option ℕ
  due p [] = none
  due p (x ∷ xs) = if key x == p then some (time x) else due p xs

  abbrev pub Single : List E → Type 0
  Single [] = Unit {0}
  Single (x ∷ xs) = (due (key x) xs ≡ none) × Single xs

  -- What the lists of the timer keep.
  pub record IsTimed (xs : List E) : Type 0 where
    pub ascending : Ascending xs
    pub single : Single xs

  pub From-mono : (m n : ℕ) (xs : List E) → m ≤ n → From n xs → From m xs
  From-mono m n [] h f = tt
  From-mono m n (x ∷ xs) h f = (omega (arith, f.0), From-mono m n xs h f.1)

  From-insert : (n : ℕ) (e : E) (xs : List E) → n ≤ time e → From n xs → From n (insert time e xs)
  unfolding insert
  From-insert n e [] h f = (h, tt)
  From-insert n e (x ∷ xs) h f = elim (Bool-cases (ltb (time e) (time x))) [
    | inl b ↦ rw b (h, f)
    | inr b ↦ rw b (f.0, From-insert n e xs h f.1)
  ]

  Ascending-insert : (e : E) (xs : List E) → Ascending xs → Ascending (insert time e xs)
  unfolding insert
  Ascending-insert e [] a = (tt, tt)
  Ascending-insert e (x ∷ xs) a = elim (Bool-cases (ltb (time e) (time x))) [
    | inl b ↦ rw b ((ground arith, From-mono (time e) (time x) xs (ground arith) a.0), a)
    | inr b ↦ rw b (From-insert (time x) e xs (ground arith) a.0, Ascending-insert e xs a.1)
  ]

  due-insert_other : (p : ℕ) (e : E) (xs : List E) → key e ≢ p → due p (insert time e xs) ≡ due p xs
  unfolding insert
  due-insert_other p e [] h = ground arith
  due-insert_other p e (x ∷ xs) h = ground (arith, due-insert_other p e xs h)

  due-insert_self :
      (e : E) (xs : List E) → due (key e) xs ≡ none → due (key e) (insert time e xs) ≡ some (time e)
  unfolding insert
  due-insert_self e [] h = ground arith
  due-insert_self e (x ∷ xs) h = ground (arith, due-insert_self e xs)

  Single-insert :
      (e : E) (xs : List E) → due (key e) xs ≡ none → Single xs → Single (insert time e xs)
  unfolding insert
  Single-insert e [] h s = (refl, tt)
  Single-insert e (x ∷ xs) h s = elim (Bool-cases (key x == key e)) [
    | inl b ↦ ground arith
    | inr b ↦
        let h' : due (key e) xs ≡ none = ground arith in
        elim (Bool-cases (ltb (time e) (time x))) [
          | inl c ↦ rw c (h, s)
          | inr c ↦ rw c (ground (arith, due-insert_other (key x) e xs), Single-insert e xs h' s.1)
        ]
  ]

  pub insert-IsTimed :
      (e : E) (xs : List E) → due (key e) xs ≡ none → IsTimed xs → IsTimed (insert time e xs)
  insert-IsTimed e xs h v = record {
    ascending = Ascending-insert e xs v.ascending;
    single = Single-insert e xs h v.single;
  }

  -- Setting a key that is not set.
  pub due-insert :
      (p : ℕ) (e : E) (xs : List E)
      → due (key e) xs ≡ none
      → due p (insert time e xs) ≡ (if key e == p then some (time e) else due p xs)
  due-insert p e xs h = elim (Bool-cases (key e == p)) [
    | inl b ↦ ground (arith, due-insert_self e xs h)
    | inr b ↦ rw b (due-insert_other p e xs (ground arith))
  ]

  module _ (p : ℕ) where
    abbrev pub others : List E → List E
    others xs = (take_first (λ x. key x == p) xs).1

    others_cons :
        (x : E) (xs : List E) → others (x ∷ xs) ≡ (if key x == p then xs else x ∷ others xs)
    unfolding take_first
    others_cons x xs = ground arith

    From-others : (n : ℕ) (xs : List E) → From n xs → From n (others xs)
    unfolding take_first
    From-others n [] f = tt
    From-others n (x ∷ xs) f = elim (Bool-cases (key x == p)) [
      | inl b ↦ rw (others_cons x xs, b) f.1
      | inr b ↦ rw (others_cons x xs, b) (f.0, From-others n xs f.1)
    ]

    pub due-others_other : (q : ℕ) (xs : List E) → q ≢ p → due q (others xs) ≡ due q xs
    unfolding take_first
    due-others_other q [] h = refl
    due-others_other q (x ∷ xs) h = ground (arith, due-others_other q xs h)

    due-others-none : (q : ℕ) (xs : List E) → due q xs ≡ none → due q (others xs) ≡ none
    unfolding take_first
    due-others-none q [] h = refl
    due-others-none q (x ∷ xs) h = ground (arith, due-others-none q xs)

    pub due-others_self : (xs : List E) → Single xs → due p (others xs) ≡ none
    unfolding take_first
    due-others_self [] s = refl
    due-others_self (x ∷ xs) s = ground (arith, due-others_self xs s.1)

    Ascending-others : (xs : List E) → Ascending xs → Ascending (others xs)
    unfolding take_first
    Ascending-others [] a = tt
    Ascending-others (x ∷ xs) a = elim (Bool-cases (key x == p)) [
      | inl b ↦ rw (others_cons x xs, b) a.1
      | inr b ↦ rw (others_cons x xs, b) (From-others (time x) xs a.0, Ascending-others xs a.1)
    ]

    Single-others : (xs : List E) → Single xs → Single (others xs)
    unfolding take_first
    Single-others [] s = tt
    Single-others (x ∷ xs) s = elim (Bool-cases (key x == p)) [
      | inl b ↦ rw (others_cons x xs, b) s.1
      | inr b ↦ rw (others_cons x xs, b) (due-others-none (key x) xs s.0, Single-others xs s.1)
    ]

    pub others-IsTimed : (xs : List E) → IsTimed xs → IsTimed (others xs)
    others-IsTimed xs v = record {
      ascending = Ascending-others xs v.ascending;
      single = Single-others xs v.single;
    }

    -- The entry that the search finds.
    abbrev pub Taken : List E → Option E → Type 0
    Taken xs none = due p xs ≡ none
    Taken xs (some e) = (key e ≡ p) × (due p xs ≡ some (time e))

    pub take_first-Taken : (xs : List E) → Taken xs (take_first (λ x. key x == p) xs).0
    unfolding take_first
    take_first-Taken [] = refl
    take_first-Taken (x ∷ xs) = elim (Bool-cases (key x == p)) [
      | inl b ↦ rw b (ground arith, ground arith)
      | inr b ↦ ground (arith, take_first-Taken xs)
    ]
