-- ===== src/Domino.antt =====
-- Rallies and dominos: src/kernel/domino.c. Each message that is alive has a rally, which records
-- the processes that the message has passed through. A `rally_t *` and a `domino_t *` are
-- addresses; the addresses that kmalloc() returns are arguments. `none` stands for a NULL pointer,
-- and as the result of an operation for a dereference of NULL.
pub mod Find
use brainix_old.Base.{
  ℕ, zero, suc, Bool, true, false, Option, none, some, ◌==◌, if◌then◌else◌, update,
}
use brainix_old.Ring.{Links, self_link, insert_before, set_next, set_prev}
use brainix_old.Ring.Queue.{append_links, append_head, head_without}

-- `rally_t` but for its links.
pub record Rally : Type 0 where
  pub mid : ℕ
  pub op : ℕ
  pub domino : Option ℕ

-- `rally` is the global pointer; `pid` and `dominos` are the fields of the domino_t's.
pub record Rallies : Type 0 where
  pub cell : ℕ → Rally
  pub links : Links
  pub rally : Option ℕ
  pub pid : ℕ → ℕ
  pub dominos : Links

-- The loop of `rally_find`, from `r` on: where it stops. `head` is `rally`.
rally_walk : ℕ → Rallies → ℕ → ℕ → ℕ → ℕ
rally_walk zero s head mid r = r
rally_walk (suc fuel) s head mid r =
    let rest = rally_walk fuel s head mid (s.links.next r) in
    if s.links.next r == head then r else if (s.cell r).mid == mid then r else rest

unfoldable pub rally_find : ℕ → Rallies → ℕ → Option ℕ
unfolding rally_walk
rally_find fuel s mid = elim s.rally [
  | none ↦ none
  | some head ↦
      let r = rally_walk fuel s head mid head in if (s.cell r).mid == mid then some r else none
]

abbrev pub is_some {ℓ} : {A : Type ℓ} → Option A → Bool
is_some none = false
is_some (some x) = true

unfoldable pub rally_exists : ℕ → Rallies → ℕ → Bool
rally_exists fuel s mid = is_some (rally_find fuel s mid)

-- `r` is what kmalloc() returns. In a list that was empty the last line writes the links of `r`
-- once more, with the same values.
unfoldable pub rally_create : Rallies → (r : ℕ) → (mid op : ℕ) → Rallies
rally_create s r mid op = record s {
  cell = update s.cell r (record { mid = mid; op = op; domino = none });
  links = append_links s.links s.rally r;
  rally = append_head s.rally r;
}

-- The first domino and the one behind it, or one more domino.
pub grow_at : Rallies → ℕ → (d d' from to : ℕ) → Option ℕ → Rallies
grow_at s r d d' from to none = record s {
  cell = update s.cell r (record (s.cell r) { domino = some d });
  pid = update (update s.pid d from) d' to;
  dominos = insert_before (self_link s.dominos d) d d';
}
grow_at s r d d' from to (some first) = record s {
  pid = update s.pid d to;
  dominos = insert_before s.dominos first d;
}

-- `d` and `d'` are what kmalloc() returns; the second is used in a rally that has no domino.
unfoldable pub rally_grow : ℕ → Rallies → (mid from to d d' : ℕ) → Option Rallies
unfolding grow_at
rally_grow fuel s mid from to d d' = elim (rally_find fuel s mid) [
  | none ↦ none
  | some r ↦ some (grow_at s r d d' from to (s.cell r).domino)
]

-- `n->next->prev = (n->prev->next = n->next)->prev->prev`
unlink_through : Links → ℕ → Links
unlink_through l n =
    let l1 = set_next l (l.prev n) (l.next n) in
    set_prev l1 (l1.next n) (l1.prev (l1.prev (l.next n)))

-- The loop of `rally_destroy` over the dominos of `r`; what is freed is not reused here.
free_dominos : ℕ → Rallies → ℕ → Rallies
unfolding unlink_through
free_dominos zero s r = s
free_dominos (suc fuel) s r = elim (s.cell r).domino [
  | none ↦ s
  | some d ↦
      free_dominos fuel
        (record s {
          cell = update s.cell r (record (s.cell r) { domino = head_without s.dominos (some d) d });
          dominos = unlink_through s.dominos d;
        })
        r
]

unfoldable pub rally_destroy : ℕ → Rallies → ℕ → Option Rallies
unfolding free_dominos unlink_through
rally_destroy fuel s mid = elim (rally_find fuel s mid) [
  | none ↦ none
  | some r ↦
      let s' = free_dominos fuel s r in
      some
        (record s' { rally = head_without s'.links s'.rally r; links = unlink_through s'.links r })
]
