-- ===== src/Message/Boxes.antt =====
-- The mailboxes as lists of messages: what sending, checking and freeing do to them.
use brainix_old.Base.{
  ℕ, zero, suc, ◌<◌, ◌≤◌, ◌≡◌, ◌≢◌, refl, ◌∙◌, sym, true, false, ◌||◌, Option, none, some, List, [],
  ◌∷◌, ◌++◌, arith, ◌==◌, mem, erase, length, Bool-cases, inl, inr, if◌then◌else◌, mem-erase,
  mem-append,
}
use brainix_old.Ring.{unlink}
use brainix_old.Ring.Chain.{Chain}
use brainix_old.Ring.Queue.{
  IsQueue, IsQueue-append, IsQueue-remove, IsQueue-frame, append_links, append_links_frame,
  unlink_frame,
}
use brainix_old.Message.{
  Mail, anyone, check_walk, walk_box, check_found, msg_check, take_out, put_in, getpid,
}

-- `box p` is the mailbox of p, oldest message first. No message is in two mailboxes, and each is in
-- the one that it is addressed to.
pub record HasBoxes (s : Mail) (box : ℕ → List ℕ) : Type 0 where
  pub ring : (p : ℕ) → IsQueue s.links (s.mbox p) (box p)
  pub addressed : (p m : ℕ) → mem m (box p) ≡ true → (s.msg m).to ≡ p

-- The mailboxes with that of p replaced.
abbrev pub with_box : (ℕ → List ℕ) → ℕ → List ℕ → ℕ → List ℕ
with_box box p xs q = if q == p then xs else box q

elsewhere :
    (s : Mail) (box : ℕ → List ℕ) (p q k : ℕ)
    → HasBoxes s box
    → p ≢ q
    → mem k (box p) ≡ true
    → mem k (box q) ≡ false
elsewhere s box p q k v ne i = elim (Bool-cases (mem k (box q))) [
  | inl j ↦ absurd (ne (sym (v.addressed p k i) ∙ v.addressed q k j))
  | inr out ↦ out
]

-- Taking a message out of its mailbox leaves the other messages, there and elsewhere, in order.
pub take_out-HasBoxes :
    (s : Mail) (box : ℕ → List ℕ) (p m : ℕ)
    → HasBoxes s box
    → mem m (box p) ≡ true
    → HasBoxes (take_out s p m) (with_box box p (erase m (box p)))
unfolding take_out
take_out-HasBoxes s box p m v i = record {
  ring = λ q. elim (Bool-cases (q == p)) [
    | inl e ↦ rw e (IsQueue-remove s.links (s.mbox p) (box p) m (v.ring p) i)
    | inr e ↦ rw (e) (
        IsQueue-frame s.links (unlink s.links m) (s.mbox q) (box q) (v.ring q) (λ k j.
          unlink_frame s.links (s.mbox p) (box p) m k (v.ring p) i
            (elsewhere s box q p k v (ground arith) j)))
  ];
  addressed = λ q k j. elim (Bool-cases (q == p)) [
    | inl e ↦ ground (arith, mem-erase k m (box p), v.addressed p k)
    | inr e ↦ v.addressed q k (ground arith)
  ];
}

-- The first message of the list from the process, or from anyone.
abbrev pub first_from : Mail → ℕ → List ℕ → Option ℕ
first_from s from [] = none
first_from s from (m ∷ ms) =
    if (from == anyone) || ((s.msg m).from == from) then some m else first_from s from ms

walk-first_from :
    (fuel : ℕ) (s : Mail) (from head m : ℕ) (ms : List ℕ)
    → Chain s.links m ms head
    → mem head ms ≡ false
    → length ms < fuel
    → check_walk fuel s from head m ≡ first_from s from (m ∷ ms)
unfolding check_walk
walk-first_from zero s from head m ms c out h = absurd (omega arith)
walk-first_from (suc fuel) s from head m [] c out h = ground arith
walk-first_from (suc fuel) s from head m (x ∷ ms) c out h =
    let rest = walk-first_from fuel s from head x ms c.2 (ground arith) (omega arith) in
    let ne : (s.links.next m == head) ≡ false = ground arith in rw (ne, c.0, rest)

walk_box-first_from :
    (fuel : ℕ) (s : Mail) (from : ℕ) (q : Option ℕ) (ms : List ℕ)
    → IsQueue s.links q ms
    → length ms ≤ fuel
    → walk_box fuel s from q ≡ first_from s from ms
unfolding walk_box
walk_box-first_from fuel s from none [] r h = refl
walk_box-first_from fuel s from none (m ∷ ms) r h = absurd r
walk_box-first_from fuel s from (some head) [] r h = absurd r
walk_box-first_from fuel s from (some head) (m ∷ ms) r h =
    rw r.0 (walk-first_from fuel s from m m ms r.1 r.2.0 (omega arith))

mem-first_from :
    (s : Mail) (from m : ℕ) (ms : List ℕ) → first_from s from ms ≡ some m → mem m ms ≡ true
mem-first_from s from m [] e = absurd (cc)
mem-first_from s from m (x ∷ ms) e = ground (arith, mem-first_from s from m ms)

-- What the receiver's mailbox is after a check that found the message.
abbrev pub after_check : List ℕ → Option ℕ → List ℕ
after_check ms none = ms
after_check ms (some m) = erase m ms

HasBoxes-same :
    (s : Mail) (box : ℕ → List ℕ) (p : ℕ) → HasBoxes s box → HasBoxes s (with_box box p (box p))
HasBoxes-same s box p v = record {
  ring = λ q. elim (Bool-cases (q == p)) [
    | inl e ↦ let e' : q ≡ p = ground arith in rw (e, e') (v.ring p)
    | inr e ↦ rw e (v.ring q)
  ];
  addressed = λ q k j. elim (Bool-cases (q == p)) [
    | inl e ↦ ground (arith, v.addressed p k)
    | inr e ↦ v.addressed q k (ground arith)
  ];
}

check_found-HasBoxes :
    (s : Mail) (box : ℕ → List ℕ) (p : ℕ) (r : Option ℕ)
    → HasBoxes s box
    → ((m : ℕ) → r ≡ some m → mem m (box p) ≡ true)
    → ((check_found s p r).0 ≡ r)
      × HasBoxes (check_found s p r).1 (with_box box p (after_check (box p) r))
unfolding check_found
check_found-HasBoxes s box p none v i = (refl, HasBoxes-same s box p v)
check_found-HasBoxes s box p (some m) v i = (refl, take_out-HasBoxes s box p m v (i m refl))

-- When the mailboxes are lists that the walk's fuel covers, `msg_check` finds the oldest message in the caller's mailbox that is from the given process, or
-- from anyone, and takes it out; the others stay in order, and no other mailbox changes.
pub msg_check_lem :
    (fuel : ℕ) (s : Mail) (box : ℕ → List ℕ) (from : ℕ)
    → HasBoxes s box
    → length (box (getpid s)) ≤ fuel
    → let found = first_from s from (box (getpid s)) in
      ((msg_check fuel s from).0 ≡ found)
      × HasBoxes
          (msg_check fuel s from).1
          (with_box box (getpid s) (after_check (box (getpid s)) found))
unfolding msg_check
msg_check_lem fuel s box from v h =
    rw (walk_box-first_from fuel s from (s.mbox (getpid s)) (box (getpid s)) (v.ring (getpid s)) h)
      (check_found-HasBoxes s box (getpid s) (first_from s from (box (getpid s))) v
        (λ m e. mem-first_from s from m (box (getpid s)) e))

-- Putting a message that is in no mailbox at the end of its receiver's.
pub put_in-HasBoxes :
    (s : Mail) (box : ℕ → List ℕ) (m : ℕ)
    → HasBoxes s box
    → ((p : ℕ) → mem m (box p) ≡ false)
    → let to = (s.msg m).to in HasBoxes (put_in s m) (with_box box to (box to ++ (m ∷ [])))
unfolding put_in
put_in-HasBoxes s box m v out =
    let to = (s.msg m).to in
    record {
      ring = λ q. elim (Bool-cases (q == to)) [
        | inl e ↦ rw e (IsQueue-append s.links (s.mbox to) (box to) m (v.ring to) (out to))
        | inr e ↦ rw e (
            IsQueue-frame s.links (append_links s.links (s.mbox to) m) (s.mbox q) (box q) (v.ring q)
              (λ k j.
                append_links_frame s.links (s.mbox to) (box to) m k (v.ring to)
                  (elsewhere s box q to k v (ground arith) j) (ground (arith, out q))))
      ];
      addressed = λ q k j. elim (Bool-cases (q == to)) [
        | inl e ↦ ground (arith, mem-append k (box to) (m ∷ []), v.addressed to k)
        | inr e ↦ v.addressed q k (ground arith)
      ];
    }
