-- ===== src/Message/Tests.antt =====
-- A mailbox with two messages, and the theorems of message passing on it.
use brainix_old.Base.{ℕ, ◌≡◌, ◌≢◌, refl, false, none, some, List, [], ◌∷◌, arith, mem}
use brainix_old.Signal.Set.{sigemptyset}
use brainix_old.Ring.{self_link}
use brainix_old.Ring.Queue.{IsQueue, append_head, append_links}
use brainix_old.Process.{Proc, Procs, nonexist, ready, proc_wakeup}
use brainix_old.Domino.{Rallies, rally_find, rally_create, rally_exists}
use brainix_old.Message.{Mail, put_in, take_out, msg_check, msg_send}
use brainix_old.Message.Boxes.{HasBoxes, put_in-HasBoxes, msg_check_lem, with_box}
use brainix_old.Message.Send.{msg_send_lem}
use brainix_old.Message.Lost.{lost_message}

abbrev proc_1 : Proc
proc_1 = record {
  egid = 0;
  euid = 0;
  gid = 0;
  pgrp = 0;
  pid = 1;
  ppid = 0;
  uid = 0;
  utime = 0;
  stime = 0;
  cutime = 0;
  cstime = 0;
  state = ready;
  kernel_time = 0;
}

-- Process 1 runs, and messages 5, 6 and 7 from process 2 are for it.
abbrev procs : Procs
procs = record {
  proc = λ k. proc_1;
  links = record { next = λ k. k; prev = λ k. k };
  ready_q = none;
  current_proc = 1;
  last_pid = 1;
  signals = record {
    blocked = λ p. sigemptyset;
    pending = λ p. sigemptyset;
    action =
        λ p k. record { sa_handler = 0; sa_mask = sigemptyset; sa_flags = 0; sa_sigaction = 0 };
  };
}

abbrev no_rallies : Rallies
no_rallies = record {
  cell = λ r. record { mid = 0; op = 0; domino = none };
  links = record { next = λ k. k; prev = λ k. k };
  rally = none;
  pid = λ d. 0;
  dominos = record { next = λ k. k; prev = λ k. k };
}

-- The rally of message number 9, in the cell 20.
abbrev rallies : Rallies
rallies = rally_create no_rallies 20 9 3

abbrev empty : Mail
empty = record {
  msg = λ m. record { mid = 9; from = 2; to = 1; op = 3 };
  links = record { next = λ k. k; prev = λ k. k };
  mbox = λ p. none;
  mid = 9;
  rallies = rallies;
  procs = procs;
}

abbrev no_box : ℕ → List ℕ
no_box p = []

empty-HasBoxes : HasBoxes empty no_box
empty-HasBoxes = record { ring = λ p. tt; addressed = λ p m i. absurd (ground arith) }

abbrev box_5 : ℕ → List ℕ
box_5 = with_box no_box 1 (5 ∷ [])

abbrev box_56 : ℕ → List ℕ
box_56 = with_box box_5 1 (5 ∷ 6 ∷ [])

abbrev with_56 : Mail
with_56 = put_in (put_in empty 5) 6

with_5-HasBoxes : HasBoxes (put_in empty 5) box_5
with_5-HasBoxes = put_in-HasBoxes empty no_box 5 empty-HasBoxes (λ p. refl)

not_in_5 : (p : ℕ) → mem 6 (box_5 p) ≡ false
not_in_5 p = ground arith

with_56-HasBoxes : HasBoxes with_56 box_56
unfolding put_in
with_56-HasBoxes = put_in-HasBoxes (put_in empty 5) box_5 6 with_5-HasBoxes not_in_5

rally_found : rally_find 4 rallies 9 ≡ some 20
unfolding rally_find rally_create append_head append_links self_link
rally_found = refl

not_in_56 : (p : ℕ) → mem 7 (box_56 p) ≡ false
not_in_56 p = ground arith

alive : ready ≢ nonexist
alive e = omega arith

msg_check_lem_example :
    ((msg_check 2 with_56 2).0 ≡ some 5)
    × HasBoxes (msg_check 2 with_56 2).1 (with_box box_56 1 (6 ∷ []))
unfolding put_in
msg_check_lem_example = msg_check_lem 2 with_56 box_56 2 with_56-HasBoxes (omega arith)

msg_send_lem_example :
    (t : Mail) × (msg_send 4 with_56 7 30 31 ≡ some t)
    × HasBoxes t (with_box box_56 1 (5 ∷ 6 ∷ 7 ∷ []))
    × (t.procs ≡ (proc_wakeup procs 1).0)
unfolding put_in
msg_send_lem_example =
    msg_send_lem 4 with_56 box_56 7 30 31 20 with_56-HasBoxes not_in_56 rally_found alive

-- Message 7 arrives while process 1 handles message 5, and is lost when message 5 is freed.
abbrev arrived : Mail
arrived = put_in (take_out with_56 1 5) 7

lost_message_example :
    IsQueue arrived.links (arrived.mbox 1) (6 ∷ 7 ∷ [])
    × IsQueue (take_out arrived 1 5).links ((take_out arrived 1 5).mbox 1) (6 ∷ [])
unfolding put_in
lost_message_example = lost_message with_56 box_56 1 5 6 7 [] with_56-HasBoxes refl refl refl

unused_10 : rally_exists 2 rallies 10 ≡ false
unfolding rally_exists rally_find rally_create append_head append_links self_link
unused_10 = refl
