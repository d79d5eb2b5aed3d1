-- ===== src/Ring/Chain.antt =====
-- A stretch of a circular list: from `a` the links lead through `xs` to `b`, both ways. A ring is
-- a stretch from a node to itself.
use brainix_old.Base.{
  ℕ, ◌≡◌, ◌≢◌, true, false, List, [], ◌∷◌, ◌++◌, arith, ◌==◌, mem, Distinct, erase, Bool-cases, inl,
  inr, if◌then◌else◌,
}
use brainix_old.Ring.{Links, insert_before, unlink}

abbrev pub Chain : Links → ℕ → List ℕ → ℕ → Type 0
Chain l a [] b = (l.next a ≡ b) × (l.prev b ≡ a)
Chain l a (x ∷ xs) b = (l.next a ≡ x) × (l.prev x ≡ a) × Chain l x xs b

-- Stretches join.
pub Chain-append :
    (l : Links) (a : ℕ) (xs : List ℕ) (b : ℕ) (ys : List ℕ) (c : ℕ)
    → Chain l a xs b
    → Chain l b ys c
    → Chain l a (xs ++ (b ∷ ys)) c
Chain-append l a [] b ys c s t = (s.0, s.1, t)
Chain-append l a (x ∷ xs) b ys c s t = (s.0, s.1, Chain-append l x xs b ys c s.2 t)

-- The node before the end is on the stretch.
pub mem-prev :
    (l : Links) (a : ℕ) (xs : List ℕ) (b : ℕ) → Chain l a xs b → mem (l.prev b) (a ∷ xs) ≡ true
mem-prev l a [] b s = ground arith
mem-prev l a (x ∷ xs) b s = ground (arith, mem-prev l x xs b s.2)

-- A stretch survives changes elsewhere.
pub Chain-frame :
    (l m : Links) (a : ℕ) (xs : List ℕ) (b : ℕ)
    → Chain l a xs b
    → ((k : ℕ) → mem k (a ∷ xs) ≡ true → m.next k ≡ l.next k)
    → ((k : ℕ) → mem k (b ∷ xs) ≡ true → m.prev k ≡ l.prev k)
    → Chain m a xs b
Chain-frame l m a [] b s same_next same_prev = ground (arith, same_next a, same_prev b)
Chain-frame l m a (x ∷ xs) b s same_next same_prev =
    let first = same_next a (ground arith) in
    let second = same_prev x (ground arith) in
    let rest =
      Chain-frame l m x xs b s.2 (λ k i. same_next k (ground arith))
        (λ k i. same_prev k (ground arith)) in
    (ground arith, ground arith, rest)

-- `insert_before` puts `n` at the end of a stretch.
pub Chain-insert :
    (l : Links) (a : ℕ) (xs : List ℕ) (b n : ℕ)
    → Chain l a xs b
    → Distinct (a ∷ xs)
    → mem n (a ∷ xs) ≡ false
    → n ≢ b
    → mem b xs ≡ false
    → Chain (insert_before l b n) a (xs ++ (n ∷ [])) b
unfolding insert_before
Chain-insert l a [] b n s d out ne free = ground arith
Chain-insert l a (x ∷ xs) b n s d out ne free =
    let last = mem-prev l x xs b s.2 in
    let rest = Chain-insert l x xs b n s.2 d.1 (ground arith) ne (ground arith) in
    (ground arith, ground arith, rest)

-- The first node of a ring leaves it: its neighbours are joined.
pub Chain-redirect :
    (l m : Links) (a : ℕ) (xs : List ℕ) (b c : ℕ)
    → Chain l a xs b
    → Distinct (a ∷ xs)
    → mem c xs ≡ false
    → ((k : ℕ) → m.next k ≡ (if k == l.prev b then c else l.next k))
    → ((k : ℕ) → m.prev k ≡ (if k == c then l.prev b else l.prev k))
    → Chain m a xs c
Chain-redirect l m a [] b c s d out mn mp = ground (arith, mn a, mp c)
Chain-redirect l m a (x ∷ xs) b c s d out mn mp =
    let last = mem-prev l x xs b s.2 in
    let rest = Chain-redirect l m x xs b c s.2 d.1 (ground arith) mn mp in
    let e1 = mn a in let e2 = mp x in (ground arith, ground arith, rest)

-- The neighbours of an inner node lie on the stretch.
pub mem-neighbours :
    (l : Links) (a : ℕ) (xs : List ℕ) (b n : ℕ)
    → Chain l a xs b
    → mem n xs ≡ true
    → (mem (l.prev n) (a ∷ xs) ≡ true) × (mem (l.next n) (b ∷ xs) ≡ true)
mem-neighbours l a [] b n s i = absurd (ground arith)
mem-neighbours l a (x ∷ []) b n s i = ground arith
mem-neighbours l a (x ∷ y ∷ xs) b n s i = elim (Bool-cases (n == x)) [
  | inl e ↦ ground arith
  | inr e ↦ let h = mem-neighbours l x (y ∷ xs) b n s.2 (ground arith) in ground arith
]

-- `unlink` takes the second node out of a stretch.
pub Chain-unlink_second :
    (l : Links) (a x : ℕ) (xs : List ℕ) (b : ℕ)
    → Chain l a (x ∷ xs) b
    → Distinct (a ∷ x ∷ xs)
    → mem b (x ∷ xs) ≡ false
    → Chain (unlink l x) a xs b
unfolding unlink
Chain-unlink_second l a x [] b s d out = ground arith
Chain-unlink_second l a x (y ∷ xs) b s d out =
    let rest =
      Chain-frame l (unlink l x) y xs b s.2.2 (λ k i. ground arith) (λ k i. ground arith) in
    (ground arith, ground arith, rest)

-- What `unlink` writes.
pub next-unlink :
    (l : Links) (n k : ℕ) → (unlink l n).next k ≡ (if k == l.prev n then l.next n else l.next k)
unfolding unlink
next-unlink l n k = ground arith

pub prev-unlink :
    (l : Links) (n k : ℕ) → (unlink l n).prev k ≡ (if k == l.next n then l.prev n else l.prev k)
unfolding unlink
prev-unlink l n k = ground arith

-- `unlink` takes an inner node out of a stretch.
pub Chain-unlink :
    (l : Links) (a : ℕ) (xs : List ℕ) (b n : ℕ)
    → Chain l a xs b
    → Distinct (a ∷ xs)
    → mem b xs ≡ false
    → mem n xs ≡ true
    → Chain (unlink l n) a (erase n xs) b
Chain-unlink l a [] b n s d out i = absurd (ground arith)
Chain-unlink l a (x ∷ xs) b n s d out i = elim (Bool-cases (n == x)) [
  | inl e ↦
      let e' : n ≡ x = ground arith in
      let first = Chain-unlink_second l a x xs b s d out in rw (e, e') first
  | inr e ↦
      let near = mem-neighbours l x xs b n s.2 (ground arith) in
      let rest = Chain-unlink l x xs b n s.2 d.1 (ground arith) (ground arith) in
      let e1 = next-unlink l n a in
      let e2 = prev-unlink l n x in rw e (ground arith, ground arith, rest)
]

-- What `insert_before` writes.
pub next-insert_before :
    (l : Links) (h n k : ℕ)
    → (insert_before l h n).next k ≡ (if k == l.prev h then n else if k == n then h else l.next k)
unfolding insert_before
next-insert_before l h n k = ground arith

pub prev-insert_before :
    (l : Links) (h n k : ℕ)
    → (insert_before l h n).prev k ≡ (if k == h then n else if k == n then l.prev h else l.prev k)
unfolding insert_before
prev-insert_before l h n k = ground arith
