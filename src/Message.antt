-- ===== src/Message.antt =====
-- Messages and mailboxes: src/kernel/message.c, over the processes of src/kernel/process.c and the
-- rallies of src/kernel/domino.c. A `msg_t *` is an address; the addresses that kmalloc() returns
-- are arguments, and freed memory keeps its contents until it is handed out again. A `pid_t` is
-- its 32-bit word. `fuel` bounds the walks over the lists of rallies and of messages.
pub mod Boxes
pub mod Lost
pub mod Send
pub mod Swap
mod Tests
use Prim.Native.Nat.{bit_xor}
use brainix_old.Base.{
  ℕ, zero, suc, ◌+◌, ◌-◌, ◌%◌, ◌^◌, Bool, true, false, ◌&&◌, ◌||◌, not, Option, none, some, ◌==◌,
  ltb, if◌then◌else◌, update,
}
use brainix_old.Ring.{Links, self_link, insert_before, unlink}
use brainix_old.Ring.Queue.{append_links, append_head, head_without}
use brainix_old.Process.{Procs, nonexist, proc_sleep, proc_wakeup, num_procs}
use brainix_old.Domino.{Rallies, rally_exists, rally_create, rally_grow, rally_destroy}

-- `msg_t` but for its links and its arguments, which nothing here reads.
pub record Msg : Type 0 where
  pub mid : ℕ
  pub from : ℕ
  pub to : ℕ
  pub op : ℕ

-- `mid` is the static variable of `calc_next_mid`.
pub record Mail : Type 0 where
  pub msg : ℕ → Msg
  pub links : Links
  pub mbox : ℕ → Option ℕ
  pub mid : ℕ
  pub rallies : Rallies
  pub procs : Procs

-- -2, as a word
abbrev pub anyone : ℕ
anyone = 2 ^ 32 - 2

abbrev pub long_max : ℕ
long_max = 2147483647

-- `do_getpid` of src/kernel/syscall.c
abbrev pub getpid : Mail → ℕ
getpid s = (s.procs.proc (s.procs.proc s.procs.current_proc).pid).pid

unfoldable pub msg_init : Mail → Mail
msg_init s = record s { mbox = λ p. if ltb p num_procs then none else s.mbox p }

-- What the loop of `calc_next_mid` comes to.
pub data NextMid : Type 0 where
  next : ℕ → NextMid
  out_of_mids : NextMid
  out_of_fuel : NextMid

abbrev pub step_mid : ℕ → ℕ
step_mid mid = (mid + 1) % 2 ^ 32 % long_max

unfoldable pub mid_loop : (ℕ → Bool) → ℕ → ℕ → ℕ → NextMid
mid_loop taken zero bookmark mid = out_of_fuel
mid_loop taken (suc fuel) bookmark mid =
    let mid' = step_mid mid in
    let again = mid_loop taken fuel bookmark mid' in
    if (mid' == bookmark) && taken mid'
    then out_of_mids
    else if taken mid'
    then again
    else next mid'

-- `rounds` bounds the do-while loop.
unfoldable pub calc_next_mid : (fuel rounds : ℕ) → Mail → NextMid
unfolding mid_loop
calc_next_mid fuel rounds s = mid_loop (rally_exists fuel s.rallies) rounds s.mid s.mid

alloc_with : Mail → (m r to op : ℕ) → NextMid → Option Mail
alloc_with s m r to op (next mid) = some (record s {
  msg = update s.msg m (record { mid = mid; from = getpid s; to = to; op = op });
  links = self_link s.links m;
  mid = mid;
  rallies = rally_create s.rallies r mid op;
})
alloc_with s m r to op out_of_mids = none
alloc_with s m r to op out_of_fuel = none

-- `m` and `r` are what kmalloc() returns for the message and for its rally; no result is a panic.
unfoldable pub msg_alloc : (fuel rounds : ℕ) → Mail → (m r to op : ℕ) → Option Mail
unfolding alloc_with
msg_alloc fuel rounds s m r to op = alloc_with s m r to op (calc_next_mid fuel rounds s)

-- Taking a message out of the list that it is in; its own links stay.
unfoldable pub take_out : Mail → ℕ → ℕ → Mail
take_out s p m = record s {
  mbox = update s.mbox p (head_without s.links (s.mbox p) m);
  links = unlink s.links m;
}

unfoldable pub msg_free : (fuel : ℕ) → Mail → ℕ → Option Mail
msg_free fuel s m =
    let s' = take_out s (s.msg m).to m in
    elim (rally_destroy fuel s.rallies (s.msg m).mid) [
      | none ↦ none
      | some r ↦ some (record s' { rallies = r })
    ]

-- The loop of `msg_check`, from `m` on, in the list that starts at `head`.
check_walk : ℕ → Mail → (from head m : ℕ) → Option ℕ
check_walk zero s from head m = none
check_walk (suc fuel) s from head m =
    let m' = s.links.next m in
    let rest = check_walk fuel s from head m' in
    if (from == anyone) || ((s.msg m).from == from)
    then some m
    else if m' == head
    then none
    else rest

check_found : Mail → ℕ → Option ℕ → Option ℕ × Mail
check_found s to none = (none, s)
check_found s to (some m) = (some m, take_out s to m)

walk_box : ℕ → Mail → ℕ → Option ℕ → Option ℕ
walk_box fuel s from none = none
walk_box fuel s from (some head) = check_walk fuel s from head head

-- A message that is found is taken out of the mailbox.
unfoldable pub msg_check : (fuel : ℕ) → Mail → (from : ℕ) → Option ℕ × Mail
unfolding check_walk check_found walk_box
msg_check fuel s from = check_found s (getpid s) (walk_box fuel s from (s.mbox (getpid s)))

-- One round of the loop of `msg_receive`: a message, or the process goes to sleep (and whoever
-- `proc_sched` picks runs, until this process is woken and goes round again).
unfoldable pub receive_round : (fuel : ℕ) → Mail → (from : ℕ) → Option ℕ × Mail
receive_round fuel s from =
    let (found, s') = msg_check fuel s from in
    elim found [
      | some m ↦ (some m, s')
      | none ↦ (none, record s' { procs = (proc_sleep s'.procs (getpid s)).0 })
    ]

-- Putting a message at the end of its receiver's mailbox.
unfoldable pub put_in : Mail → ℕ → Mail
put_in s m =
    let to = (s.msg m).to in
    record s {
      links = append_links s.links (s.mbox to) m;
      mbox = update s.mbox to (append_head (s.mbox to) m);
    }

-- `d` and `d'` are what kmalloc() returns for the dominos; no result is a panic.
unfoldable pub msg_send : (fuel : ℕ) → Mail → (m d d' : ℕ) → Option Mail
msg_send fuel s m d d' =
    let x = s.msg m in
    if (s.procs.proc x.to).state == nonexist
    then none
    else elim (rally_grow fuel s.rallies x.mid x.from x.to d d') [
      | none ↦ none
      | some r ↦ some (record (put_in s m) { rallies = r; procs = (proc_wakeup s.procs x.to).0 })
    ]

-- The three exclusive ors of `msg_reply`.
unfoldable pub swap_ends : Msg → Msg
swap_ends x =
    let x1 = record x { to = bit_xor x.to x.from } in
    let x2 = record x1 { from = bit_xor x1.from x1.to } in record x2 { to = bit_xor x2.to x2.from }

unfoldable pub msg_reply : (fuel : ℕ) → Mail → (m d d' : ℕ) → Option Mail
msg_reply fuel s m d d' =
    msg_send fuel (record s { msg = update s.msg m (swap_ends (s.msg m)) }) m d d'

-- `n` bounds the loop.
unfoldable pub msg_empty : (fuel n : ℕ) → Mail → ℕ → Option Mail
msg_empty fuel zero s p = elim (s.mbox p) [ none ↦ some s | some m ↦ none ]
msg_empty fuel (suc n) s p = elim (s.mbox p) [
  | none ↦ some s
  | some m ↦ elim (msg_free fuel s m) [ none ↦ none | some s' ↦ msg_empty fuel n s' p ]
]
