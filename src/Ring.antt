-- ===== src/Ring.antt =====
-- The circular doubly linked lists of the kernel and the file system: the ready queue
-- (src/kernel/process.c), the mailboxes (src/kernel/message.c), the rallies and dominos
-- (src/kernel/domino.c) and the block cache (src/fs/block.c) are all built by the same writes to
-- `next` and `prev`. A pointer is a number: an index into a table, or an address.
pub mod Chain
pub mod Queue
pub mod Walk
use brainix_old.Base.{ℕ, update}

pub record Links : Type 0 where
  pub next : ℕ → ℕ
  pub prev : ℕ → ℕ

abbrev pub set_next : Links → ℕ → ℕ → Links
set_next l p q = record l { next = update l.next p q }

abbrev pub set_prev : Links → ℕ → ℕ → Links
set_prev l p q = record l { prev = update l.prev p q }

-- `n->next = n->prev = n`
unfoldable pub self_link : Links → ℕ → Links
self_link l n = set_next (set_prev l n n) n n

-- `n->prev = (n->next = h)->prev; h->prev = h->prev->next = n;`
unfoldable pub insert_before : Links → ℕ → ℕ → Links
insert_before l h n =
    let l1 = set_next l n h in
    let l2 = set_prev l1 n (l1.prev h) in let l3 = set_next l2 (l2.prev h) n in set_prev l3 h n

-- `n->prev->next = n->next; n->next->prev = n->prev;`
unfoldable pub unlink : Links → ℕ → Links
unlink l n = let l1 = set_next l (l.prev n) (l.next n) in set_prev l1 (l1.next n) (l1.prev n)
