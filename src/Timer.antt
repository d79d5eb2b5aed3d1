-- ===== src/Timer.antt =====
-- The timer: src/kernel/timer.c, over messages, signals, the process table and the calendar. The
-- NULL-terminated lists that `next_alarm` and `next_sigalrm` head are lists of their entries; what
-- kmalloc() and kfree() do with the entries' memory, and the `prev` links, are left out. A word of
-- 32 bits is a number. `d` and `d'` give the addresses of the dominos that a reply to a message
-- takes, and no result is a panic. A write to a port is recorded in `ports`.
pub mod Generate
pub mod Handler
pub mod Sorted
pub mod Sound
pub mod Set
mod Tests
pub mod Watch
use brainix_old.Base.{
  ℕ, zero, suc, ◌+◌, ◌-◌, ◌*◌, ◌/◌, ◌%◌, ◌^◌, Bool, true, false, ◌&&◌, Option, none, some, List, [],
  ◌∷◌, ltb, leb, ◌==◌, if◌then◌else◌, update,
}
use brainix_old.Process.{Procs, proc_update, proc_sched}
use brainix_old.Message.{Mail, msg_reply, msg_free}
use brainix_old.Kill.{sig_send}
use brainix_old.Clock.{Clock, cmos_update_time}

abbrev pub hz : ℕ
hz = 60

abbrev pub sigalrm : ℕ
sigalrm = 1

-- The operations that `timer_main` knows.
abbrev pub sys_alarm : ℕ
sys_alarm = 10

abbrev pub sys_time : ℕ
sys_time = 46

abbrev pub frequency : ℕ
frequency = 51

abbrev pub watchdog : ℕ
watchdog = 52

abbrev pub uptime_op : ℕ
uptime_op = 53

pub record Alarm : Type 0 where
  pub uptime : ℕ
  pub msg : ℕ

pub record Sigalrm : Type 0 where
  pub uptime : ℕ
  pub pid : ℕ

-- What the timer reads of a message's arguments, and the result that it writes there. `tloc` is
-- none for NULL.
pub record Args : Type 0 where
  pub seconds : ℕ
  pub ticks : ℕ
  pub type : ℕ
  pub counter : ℕ
  pub freq : ℕ
  pub tloc : Option ℕ
  pub ret_val : ℕ

pub record Timer : Type 0 where
  pub uptime : ℕ
  pub secs_pending : ℕ
  pub next_alarm : List Alarm
  pub next_sigalrm : List Sigalrm
  pub args : ℕ → Args
  pub mail : Mail
  pub clock : Clock
  pub memory : ℕ → ℕ
  pub ports : List (ℕ × ℕ)

abbrev pub with_procs : Mail → Procs → Mail
with_procs s p = record s { procs = p }

abbrev pub reply_with : Timer → (m ret_val : ℕ) → Timer
reply_with t m r = record t { args = update t.args m (record (t.args m) { ret_val = r }) }

-- The search loops, with what they unlink: the entry that is found, and the others.
unfoldable pub take_first {ℓ} : {E : Type ℓ} → (E → Bool) → List E → Option E × List E
take_first test [] = (none, [])
take_first test (x ∷ xs) =
    let rest = take_first test xs in if test x then (some x, xs) else (rest.0, x ∷ rest.1)

-- The (re)insertion: behind all entries that are due at the same time or before.
unfoldable pub insert {ℓ} : {E : Type ℓ} → (E → ℕ) → E → List E → List E
insert time e [] = e ∷ []
insert time e (x ∷ xs) =
    let rest = insert time e xs in if ltb (time e) (time x) then e ∷ x ∷ xs else x ∷ rest

-- The bytes for the timer's ports: a control word, and the two halves of the divisor, which is an
-- unsigned short.
unfoldable pub timer_freq : Timer → (counter freq : ℕ) → Timer
timer_freq t counter freq =
    let count = 1193181 / freq % 2 ^ 16 in
    record t {
      ports =
          (count / 256, 64 + counter)
          ∷ (count % 256, 64 + counter)
          ∷ ((counter * 64 + 54) % 256, 67)
          ∷ t.ports;
    }

-- The first lines of `timer_handler`.
unfoldable pub tick : Timer → Timer
tick t =
    let now = (t.uptime + 1) % 2 ^ 32 in
    record t {
      uptime = now;
      secs_pending = if now % hz == 0 then (t.secs_pending + 1) % 2 ^ 32 else t.secs_pending;
      mail = with_procs t.mail (proc_update t.mail.procs);
    }

-- The loop over the SIGALRMs: the ones that are left, and the processes.
unfoldable pub generate : (now : ℕ) → List Sigalrm → Procs → List Sigalrm × Procs
generate now [] s = ([], s)
generate now (x ∷ xs) s =
    if leb x.uptime now then generate now xs (sig_send s x.pid sigalrm) else (x ∷ xs, s)

-- Whether an alarm is the one that the message asks for.
pub same_alarm : Timer → ℕ → Alarm → Bool
same_alarm t m a =
    ((t.mail.msg a.msg).to == (t.mail.msg m).to) && ((t.args a.msg).type == (t.args m).type)

-- The seconds until an old SIGALRM, rounded up.
pub seconds_left : (now : ℕ) → Option Sigalrm → ℕ
seconds_left now none = 0
seconds_left now (some x) =
    let left = (x.uptime + 2 ^ 32 - now) % 2 ^ 32 in
    (left / hz + (if ltb 0 (left % hz) then 1 else 0)) % 2 ^ 32

unfoldable pub timer_sigalrm : Timer → ℕ → Timer
unfolding seconds_left
timer_sigalrm t m =
    let from = (t.mail.msg m).from in
    let seconds = (t.args m).seconds in
    let time = (t.uptime + seconds * hz) % 2 ^ 32 in
    let (old, sigalrms) = take_first (λ x. x.pid == from) t.next_sigalrm in
    record (reply_with t m (seconds_left t.uptime old)) {
      next_sigalrm =
          if seconds == 0
          then sigalrms
          else insert (λ x. x.uptime) (record { uptime = time; pid = from }) sigalrms;
    }

abbrev pub write_to : Timer → Option ℕ → ℕ → Timer
write_to t none v = t
write_to t (some a) v = record t { memory = update t.memory a v }

pub handle_sounded : Timer → Option (List Alarm × Mail) → Option Timer
handle_sounded t none = none
handle_sounded t (some (alarms, s)) =
    let (sigalrms, procs) = generate t.uptime t.next_sigalrm s.procs in
    some (record t {
      next_alarm = alarms;
      next_sigalrm = sigalrms;
      mail = with_procs s (proc_sched procs).0;
    })

module _ (fuel : ℕ) where
  -- The message of an alarm that is set again is freed.
  pub free_old : Mail → Option Alarm → Option Mail
  free_old s none = some s
  free_old s (some a) = msg_free fuel s a.msg

  unfoldable pub timer_watch : Timer → ℕ → Option Timer
  unfolding same_alarm free_old
  timer_watch t m =
      let time = (t.uptime + (t.args m).ticks) % 2 ^ 32 in
      let (old, alarms) = take_first (same_alarm t m) t.next_alarm in
      elim (free_old t.mail old) [
        | none ↦ none
        | some s ↦ some (record t {
          next_alarm = insert (λ a. a.uptime) (record { uptime = time; msg = m }) alarms;
          mail = s;
        })
      ]

  pub free : Timer → ℕ → Option Timer
  free t m = elim (msg_free fuel t.mail m) [ none ↦ none | some s ↦ some (record t { mail = s }) ]

  module _ (d d' : ℕ → ℕ) where
    -- The loop over the alarms: the ones that are left, and the mailboxes.
    unfoldable pub sound : (now : ℕ) → List Alarm → Mail → Option (List Alarm × Mail)
    sound now [] s = some ([], s)
    sound now (x ∷ xs) s =
        if leb x.uptime now
        then elim (msg_reply fuel s x.msg (d x.msg) (d' x.msg)) [
          | none ↦ none
          | some s' ↦ sound now xs s'
        ]
        else some (x ∷ xs, s)

    -- Up to the switch to the next process; `sig_deliver` comes when this process runs again.
    unfoldable pub timer_handler : Timer → Option Timer
    unfolding handle_sounded
    timer_handler t = handle_sounded (tick t) (sound (tick t).uptime t.next_alarm (tick t).mail)

    pub reply : Timer → ℕ → Option Timer
    reply t m = elim (msg_reply fuel t.mail m (d m) (d' m)) [
      | none ↦ none
      | some s ↦ some (record t { mail = s })
    ]

    pub timer_time : Timer → ℕ → Option Clock → Option Timer
    unfolding reply
    timer_time t m none = none
    timer_time t m (some c) =
        let secs = c.secs_since_epoch in
        let t' = record t { clock = c; secs_pending = 0 } in
        reply (reply_with (write_to t' (t.args m).tloc secs) m secs) m

    -- One round of the loop of `timer_main`, for a message that is not SHUTDOWN.
    unfoldable pub timer_main_round : Timer → ℕ → Option Timer
    unfolding reply free timer_time
    timer_main_round t m =
        let op = (t.mail.msg m).op in
        if op == sys_alarm
        then reply (timer_sigalrm t m) m
        else if op == sys_time
        then timer_time t m (cmos_update_time t.clock t.secs_pending)
        else if op == frequency
        then free (timer_freq t (t.args m).counter (t.args m).freq) m
        else if op == watchdog
        then timer_watch t m
        else if op == uptime_op
        then reply (reply_with t m t.uptime) m
        else none
