-- ===== src/Domino/Find.antt =====
-- `rally_find` searches the whole list.
use brainix_old.Base.{
  ℕ, zero, suc, ◌≤◌, ◌<◌, ◌≡◌, refl, false, Option, none, some, List, [], ◌∷◌, arith, ◌==◌,
  if◌then◌else◌, length, mem, length-append, ◌++◌, ◌∙◌, Bool-cases, inl, inr,
}
use brainix_old.Ring.Chain.{Chain}
use brainix_old.Ring.Queue.{IsQueue, IsQueue-append}
use brainix_old.Domino.{Rallies, rally_walk, rally_find, rally_create, rally_exists}

-- The first rally of the list with the number.
abbrev pub first_with : Rallies → ℕ → List ℕ → Option ℕ
first_with s mid [] = none
first_with s mid (r ∷ rs) = if (s.cell r).mid == mid then some r else first_with s mid rs

-- What `rally_find` makes of the place where the loop stops.
abbrev checked : Rallies → ℕ → ℕ → Option ℕ
checked s mid r = if (s.cell r).mid == mid then some r else none

walk-first_with :
    (fuel : ℕ) (s : Rallies) (head mid r : ℕ) (rs : List ℕ)
    → Chain s.links r rs head
    → mem head rs ≡ false
    → length rs < fuel
    → checked s mid (rally_walk fuel s head mid r) ≡ first_with s mid (r ∷ rs)
unfolding rally_walk
walk-first_with zero s head mid r rs c out h = absurd (omega arith)
walk-first_with (suc fuel) s head mid r [] c out h = ground arith
walk-first_with (suc fuel) s head mid r (x ∷ rs) c out h =
    let rest = walk-first_with fuel s head mid x rs c.2 (ground arith) (omega arith) in
    let ne : (s.links.next r == head) ≡ false = ground arith in
    elim (Bool-cases ((s.cell r).mid == mid)) [
      | inl e ↦ rw (ne, e) (rw e refl)
      | inr e ↦ rw (ne, e, c.0) rest
    ]

rally_find-none : (fuel : ℕ) (s : Rallies) (mid : ℕ) → s.rally ≡ none → rally_find fuel s mid ≡ none
unfolding rally_find
rally_find-none fuel s mid e = ground arith

rally_find-some :
    (fuel : ℕ) (s : Rallies) (mid head : ℕ)
    → s.rally ≡ some head
    → rally_find fuel s mid ≡ checked s mid (rally_walk fuel s head mid head)
unfolding rally_find
rally_find-some fuel s mid head e = ground arith

find_from :
    (fuel : ℕ) (s : Rallies) (mid : ℕ) (q : Option ℕ) (rs : List ℕ)
    → s.rally ≡ q
    → IsQueue s.links q rs
    → length rs ≤ fuel
    → rally_find fuel s mid ≡ first_with s mid rs
find_from fuel s mid none [] e q h = rally_find-none fuel s mid e
find_from fuel s mid none (x ∷ rs) e q h = absurd q
find_from fuel s mid (some head) [] e q h = absurd q
find_from fuel s mid (some head) (x ∷ rs) e q h =
    let e' : head ≡ x = q.0 in
    let walked = walk-first_with fuel s x mid x rs q.1 q.2.0 (omega arith) in
    rw (rally_find-some fuel s mid head e, e') walked

-- On a list that its fuel covers, the pointer walk of `rally_find` visits every rally once: it returns the first with the number
-- that is asked for, and NULL only if no rally in the list has it.
pub rally_find_lem :
    (fuel : ℕ) (s : Rallies) (mid : ℕ) (rs : List ℕ)
    → IsQueue s.links s.rally rs
    → length rs ≤ fuel
    → rally_find fuel s mid ≡ first_with s mid rs
rally_find_lem fuel s mid rs q h = find_from fuel s mid s.rally rs refl q h

-- A rally that has just been created is at the end of the list, so it is found under its number
-- if no older rally has that number.
pub rally_create_lem :
    (s : Rallies) (rs : List ℕ) (r mid op : ℕ)
    → IsQueue s.links s.rally rs
    → mem r rs ≡ false
    → IsQueue (rally_create s r mid op).links (rally_create s r mid op).rally (rs ++ (r ∷ []))
unfolding rally_create
rally_create_lem s rs r mid op q out = IsQueue-append s.links s.rally rs r q out

first_with-create :
    (s : Rallies) (rs : List ℕ) (r mid op : ℕ)
    → first_with s mid rs ≡ none
    → mem r rs ≡ false
    → first_with (rally_create s r mid op) mid (rs ++ (r ∷ [])) ≡ some r
unfolding rally_create
first_with-create s [] r mid op free out = ground arith
first_with-create s (x ∷ rs) r mid op free out = ground (arith, first_with-create s rs r mid op)

-- On a list that its fuel covers: after a rally that is not in the list has been created under an
-- unused number, `rally_find` finds it under that number.
pub rally_find-create :
    (fuel : ℕ) (s : Rallies) (rs : List ℕ) (r mid op : ℕ)
    → IsQueue s.links s.rally rs
    → mem r rs ≡ false
    → length rs < fuel
    → rally_exists fuel s mid ≡ false
    → rally_find fuel (rally_create s r mid op) mid ≡ some r
unfolding rally_exists
rally_find-create fuel s rs r mid op q out h free =
    let old = rally_find_lem fuel s mid rs q (omega arith) in
    let none_old : first_with s mid rs ≡ none = ground arith in
    rally_find_lem fuel (rally_create s r mid op) mid (rs ++ (r ∷ []))
      (rally_create_lem s rs r mid op q out) (omega (arith, length-append rs (r ∷ [])))
    ∙ first_with-create s rs r mid op none_old out
