-- ===== src/Message/Send.antt =====
-- Sending and replying: where a message goes.
use brainix_old.Base.{
  ℕ, ◌≡◌, ◌≢◌, refl, false, none, some, List, [], ◌∷◌, ◌++◌, arith, ◌==◌, mem, update,
}
use brainix_old.Process.{nonexist, proc_wakeup}
use brainix_old.Domino.{Rallies, rally_find, rally_grow, grow_at}
use brainix_old.Message.{Mail, msg_send, msg_reply, put_in, swap_ends}
use brainix_old.Message.Boxes.{HasBoxes, with_box, put_in-HasBoxes}
use brainix_old.Message.Swap.{swap_ends_lem}

-- The message is in no mailbox.
abbrev pub Unqueued : (ℕ → List ℕ) → ℕ → Type 0
Unqueued box m = (p : ℕ) → mem m (box p) ≡ false

rally_grow-some :
    (fuel : ℕ) (s : Rallies) (mid from to d d' r : ℕ)
    → rally_find fuel s mid ≡ some r
    → rally_grow fuel s mid from to d d' ≡ some (grow_at s r d d' from to (s.cell r).domino)
unfolding rally_grow
rally_grow-some fuel s mid from to d d' r e = rw (e, rally_grow)

module _ (fuel : ℕ) (s : Mail) (box : ℕ → List ℕ) (m d d' r : ℕ) (v : HasBoxes s box)
    (new : Unqueued box m) (rally : rally_find fuel s.rallies (s.msg m).mid ≡ some r) where
  -- When the mailboxes are lists, the message is in none of them and has a rally: a message to a
  -- process that exists is put at the end of that process' mailbox, no other
  -- mailbox changes, and the process is woken.
  pub msg_send_lem :
      (s.procs.proc (s.msg m).to).state ≢ nonexist
      → let to = (s.msg m).to in
        (t : Mail) × (msg_send fuel s m d d' ≡ some t)
        × HasBoxes t (with_box box to (box to ++ (m ∷ [])))
        × (t.procs ≡ (proc_wakeup s.procs to).0)
  unfolding msg_send
  msg_send_lem alive =
      let x = s.msg m in
      let there : ((s.procs.proc x.to).state == nonexist) ≡ false = ground arith in
      let grown = rally_grow-some fuel s.rallies x.mid x.from x.to d d' r rally in
      let put = put_in-HasBoxes s box m v (new) in
      let t : Mail = record (put_in s m) {
        rallies = grow_at s.rallies r d d' x.from x.to (s.rallies.cell r).domino;
        procs = (proc_wakeup s.procs x.to).0;
      } in
      (t, rw (there, grown) refl, record { ring = put.ring; addressed = put.addressed }, refl)

  msg_send_dead : (s.procs.proc (s.msg m).to).state ≡ nonexist → msg_send fuel s m d d' ≡ none
  unfolding msg_send
  msg_send_dead dead = ground arith

-- The state in which `msg_reply` sends.
abbrev pub swapped : Mail → ℕ → Mail
swapped s m = record s { msg = update s.msg m (swap_ends (s.msg m)) }

swapped_to : (s : Mail) (m : ℕ) → ((swapped s m).msg m).to ≡ (s.msg m).from
swapped_to s m = ground (arith, swap_ends_lem (s.msg m))

swapped_mid : (s : Mail) (m : ℕ) → ((swapped s m).msg m).mid ≡ (s.msg m).mid
swapped_mid s m = ground (arith, swap_ends_lem (s.msg m))

swapped-HasBoxes :
    (s : Mail) (box : ℕ → List ℕ) (m : ℕ)
    → HasBoxes s box
    → Unqueued box m
    → HasBoxes (swapped s m) box
swapped-HasBoxes s box m v new = record {
  ring = v.ring;
  addressed = λ p k i. ground (arith, v.addressed p k i, new p);
}

-- When the mailboxes are lists, the message is in none of them and has a rally, a reply goes to the
-- process that the message came from, if that exists: `msg_reply` puts the message at the end
-- of that process' mailbox, changes no other mailbox and wakes the process.
pub msg_reply_lem :
    (fuel : ℕ) (s : Mail) (box : ℕ → List ℕ) (m d d' r : ℕ)
    → HasBoxes s box
    → Unqueued box m
    → rally_find fuel s.rallies (s.msg m).mid ≡ some r
    → (s.procs.proc (s.msg m).from).state ≢ nonexist
    → let sender = (s.msg m).from in
      (t : Mail) × (msg_reply fuel s m d d' ≡ some t)
      × HasBoxes t (with_box box sender (box sender ++ (m ∷ [])))
      × (t.procs ≡ (proc_wakeup s.procs sender).0)
unfolding msg_reply
msg_reply_lem fuel s box m d d' r v new rally alive =
    let to' = swapped_to s m in
    let rally' = rw (← swapped_mid s m) at rally in
    let alive' = rw (← to') at alive in
    rw to' at (
      msg_send_lem fuel (swapped s m) box m d d' r (swapped-HasBoxes s box m v new) new rally'
        alive')
