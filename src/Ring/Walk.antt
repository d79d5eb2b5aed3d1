-- ===== src/Ring/Walk.antt =====
-- Searching a ring from a node on, until the node comes round again.
use brainix_old.Base.{
  Distinct, Distinct-append_one, ◌≤◌, ◌∙◌, ℕ, zero, suc, ◌<◌, ◌≡◌, refl, Bool, true, false, Option,
  none, some, List, [], ◌∷◌, ◌++◌, arith, ◌==◌, mem, length, if◌then◌else◌, mem-append,
  length-append,
}
use brainix_old.Ring.{Links}
use brainix_old.Ring.Queue.{IsQueue, IsQueue-rotate}
use brainix_old.Ring.Chain.{Chain, Chain-append}

-- `for (p = start; ; ) if (test(p)) return p; else if ((p = p->next) == start) break;`
unfoldable pub ring_walk : ℕ → (ℕ → ℕ) → (ℕ → Bool) → (start p : ℕ) → Option ℕ
ring_walk zero next test start p = none
ring_walk (suc fuel) next test start p =
    let rest = ring_walk fuel next test start (next p) in
    if test p then some p else if next p == start then none else rest

-- The first number of the list that passes the test.
abbrev pub first_of : (ℕ → Bool) → List ℕ → Option ℕ
first_of test [] = none
first_of test (x ∷ xs) = if test x then some x else first_of test xs

pub ring_walk_lem :
    (fuel : ℕ) (l : Links) (test : ℕ → Bool) (start p : ℕ) (xs : List ℕ)
    → Chain l p xs start
    → mem start xs ≡ false
    → length xs < fuel
    → ring_walk fuel l.next test start p ≡ first_of test (p ∷ xs)
unfolding ring_walk
ring_walk_lem zero l test start p xs c out h = absurd (omega arith)
ring_walk_lem (suc fuel) l test start p [] c out h = ground arith
ring_walk_lem (suc fuel) l test start p (x ∷ xs) c out h =
    let rest = ring_walk_lem fuel l test start x xs c.2 (ground arith) (omega arith) in
    let ne : (l.next p == start) ≡ false = ground arith in rw (ne, c.0, rest)

-- The same ring read backwards.
abbrev pub mirror : Links → Links
mirror l = record { next = l.prev; prev = l.next }

abbrev pub rev : List ℕ → List ℕ
rev [] = []
rev (x ∷ xs) = rev xs ++ (x ∷ [])

pub Chain-mirror :
    (l : Links) (a : ℕ) (xs : List ℕ) (b : ℕ) → Chain l a xs b → Chain (mirror l) b (rev xs) a
Chain-mirror l a [] b c = (c.1, c.0)
Chain-mirror l a (x ∷ xs) b c =
    Chain-append (mirror l) b (rev xs) x [] a (Chain-mirror l x xs b c.2) (c.1, c.0)

pub mem-rev : (k : ℕ) (xs : List ℕ) → mem k (rev xs) ≡ mem k xs
mem-rev k [] = refl
mem-rev k (x ∷ xs) = ground (arith, mem-append k (rev xs) (x ∷ []), mem-rev k xs)

pub length-rev : (xs : List ℕ) → length (rev xs) ≡ length xs
length-rev [] = refl
length-rev (x ∷ xs) = omega (arith, length-append (rev xs) (x ∷ []), length-rev xs)

-- A search that finds something finds a member that passes; one that finds nothing passes none.
pub first_of-some :
    (test : ℕ → Bool) (k : ℕ) (xs : List ℕ)
    → first_of test xs ≡ some k
    → (mem k xs ≡ true) × (test k ≡ true)
first_of-some test k [] e = absurd (cc)
first_of-some test k (x ∷ xs) e = ground (arith, first_of-some test k xs)

pub first_of-none :
    (test : ℕ → Bool) (k : ℕ) (xs : List ℕ)
    → first_of test xs ≡ none
    → mem k xs ≡ true
    → test k ≡ false
first_of-none test k [] e i = absurd (ground arith)
first_of-none test k (x ∷ xs) e i = ground (arith, first_of-none test k xs)

-- The search from the most recently used block backwards.
Distinct-rev : (xs : List ℕ) → Distinct xs → Distinct (rev xs)
Distinct-rev [] d = tt
Distinct-rev (x ∷ xs) d = Distinct-append_one x (rev xs) (Distinct-rev xs d.1) (mem-rev x xs ∙ d.0)

pub walk_queue :
    (fuel : ℕ) (l : Links) (test : ℕ → Bool) (h : ℕ) (xs : List ℕ)
    → IsQueue l (some h) xs
    → length xs ≤ fuel
    → ring_walk fuel l.next test h h ≡ first_of test xs
walk_queue fuel l test h [] q le = absurd q
walk_queue fuel l test h (x ∷ xs) q le = rw q.0 (ring_walk_lem fuel l test x x xs q.1 q.2.0 le)

pub walk_back :
    (fuel : ℕ) (l : Links) (test : ℕ → Bool) (h : ℕ) (xs : List ℕ)
    → IsQueue l (some h) xs
    → length xs ≤ fuel
    → ring_walk fuel l.prev test (l.prev h) (l.prev h) ≡ first_of test (rev xs)
walk_back fuel l test h [] q le = absurd q
walk_back fuel l test h (x ∷ xs) q le =
    let back : IsQueue (mirror l) (some x) (x ∷ rev xs) =
      (refl, Chain-mirror l x xs x q.1, (mem-rev x xs ∙ q.2.0, Distinct-rev xs q.2.1)) in
    let turned = IsQueue-rotate (mirror l) x (x ∷ rev xs) back in
    rw q.0 (
      walk_queue fuel (mirror l) test (l.prev x) (rev xs ++ (x ∷ [])) turned
        (omega (arith, length-rev (x ∷ xs))))
