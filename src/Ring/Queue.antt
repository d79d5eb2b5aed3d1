-- ===== src/Ring/Queue.antt =====
-- A list of nodes behind a head pointer, empty when the pointer is NULL, and what appending,
-- removing and rotating do to it.
use brainix_old.Base.{
  ℕ, ◌≡◌, ◌≢◌, refl, true, false, Option, none, some, List, [], ◌∷◌, ◌++◌, arith, ◌==◌, mem,
  Distinct, erase, Bool-cases, inl, inr, if◌then◌else◌, Distinct-append_one, Distinct-erase,
  mem-erase, ==_iff,
}
use brainix_old.Ring.{Links, insert_before, unlink, self_link}
use brainix_old.Ring.Chain.{
  Chain, Chain-append, Chain-insert, Chain-redirect, Chain-unlink, Chain-frame, mem-prev,
  mem-neighbours, next-unlink, prev-unlink,
}

-- The ring behind the head `h` is the nodes of the list, in order.
abbrev pub IsQueue : Links → Option ℕ → List ℕ → Type 0
IsQueue l none [] = Unit {0}
IsQueue l none (x ∷ xs) = ⊥
IsQueue l (some h) [] = ⊥
IsQueue l (some h) (x ∷ xs) = (h ≡ x) × Chain l x xs x × Distinct (x ∷ xs)

-- `q = n == n->next ? NULL : n->next` when `n` is the head of `q`.
unfoldable pub head_without : Links → Option ℕ → ℕ → Option ℕ
head_without l none n = none
head_without l (some h) n =
    if h == n then (if n == l.next n then none else some (l.next n)) else some h

-- Appending at the end: to an empty queue the node points at itself.
unfoldable pub append_links : Links → Option ℕ → ℕ → Links
append_links l none n = self_link l n
append_links l (some h) n = insert_before l h n

unfoldable pub append_head : Option ℕ → ℕ → Option ℕ
append_head none n = some n
append_head (some h) n = some h

pub IsQueue-append :
    (l : Links) (q : Option ℕ) (xs : List ℕ) (n : ℕ)
    → IsQueue l q xs
    → mem n xs ≡ false
    → IsQueue (append_links l q n) (append_head q n) (xs ++ (n ∷ []))
unfolding append_links append_head self_link
IsQueue-append l none [] n s out = ground arith
IsQueue-append l none (x ∷ xs) n s out = absurd s
IsQueue-append l (some h) [] n s out = absurd s
IsQueue-append l (some h) (x ∷ xs) n s out =
    let e : h ≡ x = s.0 in
    rw e (
      refl,
      Chain-insert l x xs x n s.1 s.2 out (ground arith) s.2.0,
      Distinct-append_one n (x ∷ xs) s.2 out,
    )

-- The head leaves a ring of two or more.
pub Chain-unlink_head :
    (l : Links) (x y : ℕ) (xs : List ℕ)
    → Chain l x (y ∷ xs) x
    → Distinct (x ∷ y ∷ xs)
    → Chain (unlink l x) y xs y
unfolding unlink
Chain-unlink_head l x y xs s d =
    let last = mem-prev l y xs x s.2 in
    Chain-redirect l (unlink l x) y xs x y s.2 d.1 d.1.0 (λ k. ground arith) (λ k. ground arith)

-- The head of a queue is removed.
IsQueue-remove_head :
    (l : Links) (x : ℕ) (xs : List ℕ)
    → Chain l x xs x
    → Distinct (x ∷ xs)
    → IsQueue (unlink l x) (if x == l.next x then none else some (l.next x)) xs
IsQueue-remove_head l x [] s d = let e : (x == l.next x) ≡ true = ground arith in rw e tt
IsQueue-remove_head l x (y ∷ xs) s d =
    let e : (x == l.next x) ≡ false = ground arith in
    rw e (s.0, Chain-unlink_head l x y xs s d, d.1)

-- Removing a node of the queue: the others stay in order.
pub IsQueue-remove :
    (l : Links) (q : Option ℕ) (xs : List ℕ) (n : ℕ)
    → IsQueue l q xs
    → mem n xs ≡ true
    → IsQueue (unlink l n) (head_without l q n) (erase n xs)
unfolding head_without
IsQueue-remove l none [] n s i = absurd (ground arith)
IsQueue-remove l none (x ∷ xs) n s i = absurd s
IsQueue-remove l (some h) [] n s i = absurd s
IsQueue-remove l (some h) (x ∷ xs) n s i = elim (Bool-cases (n == x)) [
  | inl e ↦
      let e' : n ≡ x = ground arith in
      let first = IsQueue-remove_head l x xs s.1 s.2 in rw (s.0, e', (==_iff x x).1 refl) first
  | inr e ↦
      let ne : (x == n) ≡ false = ground arith in
      let inner = Chain-unlink l x xs x n s.1 s.2 s.2.0 (ground arith) in
      let alone = Distinct-erase n xs s.2.1 in
      rw (s.0, ne, e) (refl, inner, (mem-erase x n xs s.2.0, alone))
]

-- A node outside the queue that points at itself: nothing changes.
pub IsQueue-remove_alone :
    (l : Links) (q : Option ℕ) (xs : List ℕ) (n : ℕ)
    → IsQueue l q xs
    → mem n xs ≡ false
    → l.next n ≡ n
    → l.prev n ≡ n
    → IsQueue (unlink l n) (head_without l q n) xs
unfolding head_without
IsQueue-remove_alone l none [] n s out e1 e2 = tt
IsQueue-remove_alone l none (x ∷ xs) n s out e1 e2 = absurd s
IsQueue-remove_alone l (some h) [] n s out e1 e2 = absurd s
IsQueue-remove_alone l (some h) (x ∷ xs) n s out e1 e2 =
    let rest =
      Chain-frame l (unlink l n) x xs x s.1 (λ k i. ground (arith, next-unlink l n k))
        (λ k i. ground (arith, prev-unlink l n k)) in
    let ne : (h == n) ≡ false = ground arith in rw ne (s.0, rest, s.2)

-- The nodes of a queue after its head has moved on by one place.
abbrev pub rotate : List ℕ → List ℕ
rotate [] = []
rotate (x ∷ xs) = xs ++ (x ∷ [])

-- `q = q->next` turns the queue by one place.
pub IsQueue-rotate :
    (l : Links) (h : ℕ) (xs : List ℕ)
    → IsQueue l (some h) xs
    → IsQueue l (some (l.next h)) (rotate xs)
IsQueue-rotate l h [] s = absurd s
IsQueue-rotate l h (x ∷ []) s = ground arith
IsQueue-rotate l h (x ∷ y ∷ xs) s =
    let turned = Chain-append l y xs x [] y s.1.2 (s.1.0, s.1.1) in
    let apart = Distinct-append_one x (y ∷ xs) s.2.1 s.2.0 in (ground arith, turned, apart)

-- Writes to nodes outside the queue leave it alone.
pub IsQueue-frame :
    (l m : Links) (q : Option ℕ) (xs : List ℕ)
    → IsQueue l q xs
    → ((k : ℕ) → mem k xs ≡ true → (m.next k ≡ l.next k) × (m.prev k ≡ l.prev k))
    → IsQueue m q xs
IsQueue-frame l m none [] s same = tt
IsQueue-frame l m none (x ∷ xs) s same = absurd s
IsQueue-frame l m (some h) [] s same = absurd s
IsQueue-frame l m (some h) (x ∷ xs) s same =
    (s.0, Chain-frame l m x xs x s.1 (λ k i. (same k i).0) (λ k i. (same k i).1), s.2)

-- A queue holds no node twice.
pub IsQueue-Distinct : (l : Links) (q : Option ℕ) (xs : List ℕ) → IsQueue l q xs → Distinct xs
IsQueue-Distinct l none [] s = tt
IsQueue-Distinct l none (x ∷ xs) s = absurd s
IsQueue-Distinct l (some h) [] s = absurd s
IsQueue-Distinct l (some h) (x ∷ xs) s = s.2

-- Appending writes to no node but those of the queue and the new one.
pub append_links_frame :
    (l : Links) (q : Option ℕ) (xs : List ℕ) (n k : ℕ)
    → IsQueue l q xs
    → mem k xs ≡ false
    → k ≢ n
    → ((append_links l q n).next k ≡ l.next k) × ((append_links l q n).prev k ≡ l.prev k)
unfolding append_links insert_before self_link
append_links_frame l none [] n k s out ne = ground arith
append_links_frame l none (x ∷ xs) n k s out ne = absurd s
append_links_frame l (some h) [] n k s out ne = absurd s
append_links_frame l (some h) (x ∷ xs) n k s out ne =
    let last = mem-prev l x xs x s.1 in let e : h ≡ x = s.0 in ground arith

-- The neighbours of a node of the queue are in the queue.
pub IsQueue-neighbours :
    (l : Links) (q : Option ℕ) (xs : List ℕ) (n : ℕ)
    → IsQueue l q xs
    → mem n xs ≡ true
    → (mem (l.prev n) xs ≡ true) × (mem (l.next n) xs ≡ true)
IsQueue-neighbours l none [] n s i = absurd (ground arith)
IsQueue-neighbours l none (x ∷ xs) n s i = absurd s
IsQueue-neighbours l (some h) [] n s i = absurd s
IsQueue-neighbours l (some h) (x ∷ []) n s i = ground arith
IsQueue-neighbours l (some h) (x ∷ y ∷ xs) n s i = elim (Bool-cases (n == x)) [
  | inl e ↦ let last = mem-prev l x (y ∷ xs) x s.1 in ground arith
  | inr e ↦ mem-neighbours l x (y ∷ xs) x n s.1 (ground arith)
]

-- Removing writes to no node outside the queue.
pub unlink_frame :
    (l : Links) (q : Option ℕ) (xs : List ℕ) (n k : ℕ)
    → IsQueue l q xs
    → mem n xs ≡ true
    → mem k xs ≡ false
    → ((unlink l n).next k ≡ l.next k) × ((unlink l n).prev k ≡ l.prev k)
unlink_frame l q xs n k s i out =
    let near = IsQueue-neighbours l q xs n s i in
    ground (arith, next-unlink l n k, prev-unlink l n k)

Chain-snoc :
    (l : Links) (a : ℕ) (xs : List ℕ) (n b : ℕ)
    → Chain l a (xs ++ (n ∷ [])) b
    → Chain l a xs n × (l.next n ≡ b) × (l.prev b ≡ n)
Chain-snoc l a [] n b s = ((s.0, s.1), s.2.0, s.2.1)
Chain-snoc l a (x ∷ xs) n b s =
    let rest = Chain-snoc l x xs n b s.2 in ((s.0, s.1, rest.0), rest.1, rest.2)

-- `q = q->prev` brings the last node to the front.
pub IsQueue-rotate_back :
    (l : Links) (h : ℕ) (xs : List ℕ) (n : ℕ)
    → IsQueue l (some h) (xs ++ (n ∷ []))
    → mem n xs ≡ false
    → Distinct xs
    → IsQueue l (some (l.prev h)) (n ∷ xs)
IsQueue-rotate_back l h [] n s out d = ground arith
IsQueue-rotate_back l h (x ∷ xs) n s out d =
    let parts = Chain-snoc l x xs n x s.1 in
    (ground (arith, parts.2), (parts.1, parts.2, parts.0), (out, d))
