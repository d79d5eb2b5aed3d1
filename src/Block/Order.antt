-- ===== src/Block/Order.antt =====
-- The order of the cached blocks, from the least to the most recently used.
use brainix_old.Base.{
  ℕ, ◌≡◌, true, false, some, List, [], ◌∷◌, ◌++◌, arith, ◌==◌, mem, erase, if◌then◌else◌,
  mem-erase_self, Distinct-erase,
}
use brainix_old.Ring.{Links, unlink, insert_before}
use brainix_old.Ring.Queue.{
  IsQueue, IsQueue-append, IsQueue-remove, IsQueue-rotate_back, IsQueue-Distinct, head_without,
  append_links, append_head,
}
use brainix_old.Block.{Cache, recently_used}

-- The two moves of `recently_used`.
moved : Links → ℕ → ℕ → Links
moved l lru k = insert_before (unlink l k) (if k == lru then l.next lru else lru) k

head_of_many :
    (l : Links) (lru k y x : ℕ) (xs : List ℕ)
    → IsQueue l (some lru) (x ∷ y ∷ xs)
    → head_without l (some lru) k ≡ some (if k == lru then l.next lru else lru)
unfolding head_without
head_of_many l lru k y x xs q = ground arith

moved-IsQueue :
    (l : Links) (lru k x y : ℕ) (xs : List ℕ)
    → IsQueue l (some lru) (x ∷ y ∷ xs)
    → mem k (x ∷ y ∷ xs) ≡ true
    → IsQueue
        (moved l lru k)
        (some (if k == lru then l.next lru else lru))
        (erase k (x ∷ y ∷ xs) ++ (k ∷ []))
unfolding moved append_links append_head
moved-IsQueue l lru k x y xs q i =
    let d = IsQueue-Distinct l (some lru) (x ∷ y ∷ xs) q in
    let rest = IsQueue-remove l (some lru) (x ∷ y ∷ xs) k q i in
    let rest' = rw (head_of_many l lru k y x xs q) at rest in
    IsQueue-append (unlink l k) (some (if k == lru then l.next lru else lru)) (erase k (x ∷ y ∷ xs))
      k rest' (mem-erase_self k (x ∷ y ∷ xs) d)

module _ {Dev Data : Type 0} (c : Cache Dev Data) (k x y : ℕ) (xs : List ℕ)
    (q : IsQueue c.links (some c.lru) (x ∷ y ∷ xs)) (i : mem k (x ∷ y ∷ xs) ≡ true) where
  -- In a cache of two blocks or more, a block of it that is used becomes the most recently used; the others keep their order.
  pub recently_used_most :
      let c' = recently_used c k true in
      IsQueue c'.links (some c'.lru) (erase k (x ∷ y ∷ xs) ++ (k ∷ []))
  unfolding recently_used moved
  recently_used_most = moved-IsQueue c.links c.lru k x y xs q i

  -- In a cache of two blocks or more, a block of it whose life has ended becomes the least recently used; the others keep their order.
  pub recently_used_least :
      let c' = recently_used c k false in IsQueue c'.links (some c'.lru) (k ∷ erase k (x ∷ y ∷ xs))
  unfolding recently_used moved
  recently_used_least =
      let d = IsQueue-Distinct c.links (some c.lru) (x ∷ y ∷ xs) q in
      IsQueue-rotate_back (moved c.links c.lru k) (if k == c.lru then c.links.next c.lru else c.lru)
        (erase k (x ∷ y ∷ xs)) k (moved-IsQueue c.links c.lru k x y xs q i)
        (mem-erase_self k (x ∷ y ∷ xs) d) (Distinct-erase k (x ∷ y ∷ xs) d)
