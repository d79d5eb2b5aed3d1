-- ===== src/Block/Use.antt =====
-- Using a cached block: the cache stays a cache.
use brainix_old.Base.{
  ℕ, ◌≡◌, ◌≢◌, refl, ◌∙◌, sym, Bool, true, some, List, [], ◌∷◌, ◌++◌, arith, ◌==◌, mem, erase,
  Bool-cases, inl, inr, length, mem-append, mem-erase_ne, length-append,
}
use brainix_old.Ring.{Links}
use brainix_old.Ring.Queue.{IsQueue}
use brainix_old.Super.{no_dev}
use brainix_old.Block.{Cache, recently_used}
use brainix_old.Block.Order.{recently_used_most}
use brainix_old.Block.Cached.{IsCache}

pub mem-to_back :
    (j k : ℕ) (xs : List ℕ) → mem k xs ≡ true → mem j (erase k xs ++ (k ∷ [])) ≡ mem j xs
mem-to_back j k xs i = elim (Bool-cases (j == k)) [
  | inl e ↦ ground (arith, mem-append j (erase k xs) (k ∷ []))
  | inr e ↦ ground (arith, mem-append j (erase k xs) (k ∷ []), mem-erase_ne j k xs)
]

length-to_back :
    (k : ℕ) (xs : List ℕ) → mem k xs ≡ true → length (erase k xs ++ (k ∷ [])) ≡ length xs
length-to_back k [] i = absurd (ground arith)
length-to_back k (x ∷ xs) i = ground (arith, length-to_back k xs, length-append xs (k ∷ []))

IsQueue-same :
    (l l' : Links) (h h' : ℕ) (xs : List ℕ)
    → l' ≡ l
    → h' ≡ h
    → IsQueue l (some h) xs
    → IsQueue l' (some h') xs
IsQueue-same l l' h h' xs el eh q = rw (el, eh) q

module _ {Dev Data : Type 0} where
  -- Which block of which device each slot holds.
  abbrev pub Holds : Cache Dev Data → (k d n : ℕ) → Type 0
  Holds c k d n = ((c.block k).dev ≡ d) × ((c.block k).blk ≡ n)

  pub block-recently_used :
      (c : Cache Dev Data) (k : ℕ) (m : Bool) → (recently_used c k m).block ≡ c.block
  unfolding recently_used
  block-recently_used c k m = refl

  unique_used :
      (c c' : Cache Dev Data) (order : List ℕ) (k d n : ℕ)
      → IsCache c order
      → mem k order ≡ true
      → ((j : ℕ) → j ≢ k → c'.block j ≡ c.block j)
      → Holds c' k d n
      → ((j : ℕ) → mem j order ≡ true → j ≢ k → Holds c j d n → d ≡ no_dev)
      → (a b : ℕ) → mem a (erase k order ++ (k ∷ [])) ≡ true
      → mem b (erase k order ++ (k ∷ [])) ≡ true
      → ((recently_used c' k true).block a).dev ≢ no_dev
      → ((recently_used c' k true).block a).dev ≡ ((recently_used c' k true).block b).dev
      → ((recently_used c' k true).block a).blk ≡ ((recently_used c' k true).block b).blk
      → a ≡ b
  unfolding recently_used
  unique_used c c' order k d n v i same h fresh a b ma mb ne ed eb =
      let ma' = sym (mem-to_back a k order i) ∙ ma in
      let mb' = sym (mem-to_back b k order i) ∙ mb in
      elim (Bool-cases (a == k)) [
        | inl ea ↦ elim (Bool-cases (b == k)) [
          | inl fb ↦ ground arith
          | inr fb ↦
              let nb : b ≢ k = ground arith in
              let sb = same b nb in
              let ea' : a ≡ k = ground arith in
              absurd (ground (arith, fresh b mb' nb (ground arith, ground arith)))
        ]
        | inr ea ↦
            let na : a ≢ k = ground arith in
            let sa = same a na in
            elim (Bool-cases (b == k)) [
              | inl fb ↦
                  let fb' : b ≡ k = ground arith in
                  absurd (ground (arith, fresh a ma' na (ground arith, ground arith)))
              | inr fb ↦
                  let nb : b ≢ k = ground arith in
                  let sb = same b nb in
                  v.unique a b ma' mb' (rw (← sa) ne) (rw (← sa, ← sb) ed) (rw (← sa, ← sb) eb)
            ]
      ]

  -- A slot of the cache comes to hold a block that no other slot holds, and is moved to the most
  -- recently used position.
  pub IsCache-used :
      (c c' : Cache Dev Data) (order : List ℕ) (k d n : ℕ)
      → IsCache c order
      → mem k order ≡ true
      → c'.links ≡ c.links
      → c'.lru ≡ c.lru
      → ((j : ℕ) → j ≢ k → c'.block j ≡ c.block j)
      → Holds c' k d n
      → ((j : ℕ) → mem j order ≡ true → j ≢ k → Holds c j d n → d ≡ no_dev)
      → IsCache (recently_used c' k true) (erase k order ++ (k ∷ []))
  IsCache-used c c' [] k d n v i el eh same h fresh = absurd (ground arith)
  IsCache-used c c' (x ∷ []) k d n v i el eh same h fresh = absurd (omega (arith, v.whole))
  IsCache-used c c' (x ∷ y ∷ xs) k d n v i el eh same h fresh =
      let order = x ∷ y ∷ xs in
      let q = IsQueue-same c.links c'.links c.lru c'.lru order el eh v.queue in
      record {
        queue = recently_used_most c' k x y xs q i;
        in_table = λ j m. v.in_table j (sym (mem-to_back j k order i) ∙ m);
        whole = length-to_back k order i ∙ v.whole;
        unique = unique_used c c' order k d n v i same h fresh;
      }
