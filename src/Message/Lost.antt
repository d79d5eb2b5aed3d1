-- ===== src/Message/Lost.antt =====
-- A message that `msg_check` has taken out of a mailbox keeps its old links, and `msg_free` takes
-- it out once more.
use brainix_old.Base.{
  ℕ, ◌≡◌, refl, false, Option, none, some, List, [], ◌∷◌, ◌++◌, arith, ◌==◌, mem, Distinct, ==_iff,
}
use brainix_old.Ring.{Links, unlink, insert_before}
use brainix_old.Ring.Chain.{
  Chain, next-unlink, prev-unlink, mem-prev, next-insert_before, prev-insert_before,
}
use brainix_old.Ring.Queue.{
  IsQueue, IsQueue-frame, IsQueue-append, Chain-unlink_head, append_links, append_head,
  head_without,
}
use brainix_old.Message.{Mail, take_out, put_in}
use brainix_old.Message.Boxes.{HasBoxes}

-- The links after the first node `a` has left, `c` has come to the end, and `a` leaves again.
twice_unlinked : Links → (a b c : ℕ) → Links
twice_unlinked l a b c = unlink (insert_before (unlink l a) b c) a

twice_unlinked_lem :
    (l : Links) (a b c : ℕ) (ms : List ℕ)
    → Chain l a (b ∷ ms) a
    → Distinct (a ∷ b ∷ ms)
    → mem c (a ∷ b ∷ ms) ≡ false
    → IsQueue (twice_unlinked l a b c) (some b) (b ∷ ms)
unfolding twice_unlinked
twice_unlinked_lem l a b c ms s d out =
    let q : IsQueue (unlink l a) (some b) (b ∷ ms) = (refl, Chain-unlink_head l a b ms s d, d.1) in
    let last = mem-prev l b ms a s.2 in
    IsQueue-frame (unlink l a) (unlink (insert_before (unlink l a) b c) a) (some b) (b ∷ ms) q
      λ k i.
        let l1 = unlink l a in
        let a1 : l1.next a ≡ b = ground (arith, next-unlink l a a) in
        let a2 : l1.prev a ≡ l.prev a = ground (arith, prev-unlink l a a) in
        let b1 : l1.prev b ≡ l.prev a = ground (arith, prev-unlink l a b) in
        let z1 : l1.next (l.prev a) ≡ b = ground (arith, next-unlink l a (l.prev a)) in
        let l2 = insert_before l1 b c in
        let a3 : l2.next a ≡ b = ground (arith, next-insert_before l1 b c a) in
        let a4 : l2.prev a ≡ l.prev a = ground (arith, prev-insert_before l1 b c a) in
        ground (
          arith,
          next-unlink l2 a k,
          prev-unlink l2 a k,
          next-insert_before l1 b c k,
          prev-insert_before l1 b c k,
        )

-- What a mailbox of two messages or more is.
two_at_least :
    (l : Links) (q : Option ℕ) (a b : ℕ) (ms : List ℕ)
    → IsQueue l q (a ∷ b ∷ ms)
    → (head_without l q a ≡ some b) × Chain l a (b ∷ ms) a × Distinct (a ∷ b ∷ ms)
unfolding head_without
two_at_least l none a b ms q = absurd q
two_at_least l (some h) a b ms q = (ground arith, q.1, q.2)

unlinked_head :
    (l : Links) (a b : ℕ) (ms : List ℕ)
    → Chain l a (b ∷ ms) a
    → Distinct (a ∷ b ∷ ms)
    → IsQueue (unlink l a) (some b) (b ∷ ms)
unlinked_head l a b ms s d = (refl, Chain-unlink_head l a b ms s d, d.1)

head_stays : (l : Links) (b a : ℕ) → (b == a) ≡ false → head_without l (some b) a ≡ some b
unfolding head_without
head_stays l b a ne = rw ne

-- When the mailboxes are lists: the oldest message `a` of a mailbox that holds another message is received, a new message `c`
-- arrives in that mailbox, and `a` is freed: then the mailbox is the messages that were waiting
-- behind `a`, and `c` is lost.
pub lost_message :
    (s : Mail) (box : ℕ → List ℕ) (p a b c : ℕ) (ms : List ℕ)
    → HasBoxes s box
    → box p ≡ a ∷ b ∷ ms
    → (s.msg c).to ≡ p
    → mem c (box p) ≡ false
    → let arrived = put_in (take_out s p a) c in
      IsQueue arrived.links (arrived.mbox p) ((b ∷ ms) ++ (c ∷ []))
      × IsQueue (take_out arrived p a).links ((take_out arrived p a).mbox p) (b ∷ ms)
unfolding take_out put_in append_links append_head
lost_message s box p a b c ms v e to out =
    let ring : IsQueue s.links (s.mbox p) (a ∷ b ∷ ms) = rw e at (v.ring p) in
    let fresh : mem c (a ∷ b ∷ ms) ≡ false = rw e at out in
    let facts = two_at_least s.links (s.mbox p) a b ms ring in
    let twice = twice_unlinked_lem s.links a b c ms facts.1 facts.2 fresh in
    let first = unlinked_head s.links a b ms facts.1 facts.2 in
    let put = IsQueue-append (unlink s.links a) (some b) (b ∷ ms) c first (ground arith) in
    let ne : (b == a) ≡ false = ground arith in
    rw (to, (==_iff p p).1 refl, facts.0)
      (
        put,
        rw (head_stays (insert_before (unlink s.links a) b c) b a ne)
            (unfold twice_unlinked in twice),
      )
