-- ===== src/Timer/Tests.antt =====
-- A timer with two alarms and two SIGALRMs, and the theorems of the timer on it.
use brainix_old.Base.{
  ℕ, ◌+◌, ◌*◌, ◌%◌, ◌^◌, ◌≡◌, refl, false, none, some, [], ◌∷◌, ◌==◌, arith, if◌then◌else◌,
}
use brainix_old.Signal.Set.{sigemptyset}
use brainix_old.Process.{Proc, ready}
use brainix_old.Domino.{rally_create}
use brainix_old.Message.{Mail}
use brainix_old.Timer.{Timer, timer_handler, timer_sigalrm, timer_watch, take_first, hz}
use brainix_old.Timer.Set.{alarm_of, IsScheduled, Rounded, timer_sigalrm_lem}
use brainix_old.Timer.Handler.{Outcome, sounded, timer_handler_lem}
use brainix_old.Timer.Watch.{Watched, IsWatched, timer_watch_lem}

abbrev running : Proc
running = record {
  egid = 0;
  euid = 0;
  gid = 0;
  pgrp = 0;
  pid = 1;
  ppid = 0;
  uid = 0;
  utime = 0;
  stime = 0;
  cutime = 0;
  cstime = 0;
  state = ready;
  kernel_time = 0;
}

-- Message 5 is from process 2, and message 6 from process 3; message 6 has a rally.
abbrev mail : Mail
mail = record {
  msg = λ m. record { mid = m; from = (if m == 5 then 2 else 3); to = 1; op = 10 };
  links = record { next = λ k. k; prev = λ k. k };
  mbox = λ p. none;
  mid = 9;
  rallies =
      rally_create
        (record {
          cell = λ r. record { mid = 0; op = 0; domino = none };
          links = record { next = λ k. k; prev = λ k. k };
          rally = none;
          pid = λ d. 0;
          dominos = record { next = λ k. k; prev = λ k. k };
        })
        20 6 3;
  procs = record {
    proc = λ k. running;
    links = record { next = λ k. k; prev = λ k. k };
    ready_q = none;
    current_proc = 1;
    last_pid = 1;
    signals = record {
      blocked = λ p. sigemptyset;
      pending = λ p. sigemptyset;
      action =
          λ p k. record { sa_handler = 0; sa_mask = sigemptyset; sa_flags = 0; sa_sigaction = 0 };
    };
  };
}

abbrev timer : Timer
timer = record {
  uptime = 99;
  secs_pending = 0;
  next_alarm = record { uptime = 100; msg = 6 } ∷ record { uptime = 300; msg = 7 } ∷ [];
  next_sigalrm = record { uptime = 100; pid = 3 } ∷ record { uptime = 230; pid = 2 } ∷ [];
  args = λ m. record {
    seconds = 4;
    ticks = 10;
    type = m;
    counter = 2;
    freq = 100;
    tloc = none;
    ret_val = 0;
  };
  mail = mail;
  clock = record { cmos = λ k. 1; secs_since_epoch = 0; dirty = false };
  memory = λ a. 0;
  ports = [];
}

-- The same with bytes for the types of the alarms.
abbrev watching : Timer
watching = record timer { args = λ m. record (timer.args m) { type = m % 256 } }

timer-IsScheduled : IsScheduled timer.next_sigalrm
timer-IsScheduled = record { ascending = omega arith; single = (refl, (refl, tt)) }

timer-IsWatched : IsWatched watching
timer-IsWatched = record { ascending = omega arith; single = (refl, (refl, tt)) }

-- 131 ticks are left, which are 3 seconds when rounded up.
three_left : ((timer_sigalrm timer 5).args 5).ret_val ≡ 3
unfolding timer_sigalrm take_first
three_left = refl

timer_sigalrm_lem_example :
    let t' = timer_sigalrm timer 5 in
    IsScheduled t'.next_sigalrm
    × ((p : ℕ)
        → alarm_of p t'.next_sigalrm ≡ (
            if 2 == p
            then (if 4 == 0 then none else some ((99 + 4 * hz) % 2 ^ 32))
            else alarm_of p timer.next_sigalrm))
    × Rounded 99 (alarm_of 2 timer.next_sigalrm) (t'.args 5).ret_val
timer_sigalrm_lem_example = timer_sigalrm_lem timer 5 timer-IsScheduled

timer_handler_lem_example :
    Outcome 3
      (λ m. 30)
      (λ m. 31)
      timer
      (timer_handler 3 (λ m. 30) (λ m. 31) timer)
      (sounded 3 (λ m. 30) (λ m. 31) timer)
timer_handler_lem_example =
    timer_handler_lem 3 (λ m. 30) (λ m. 31) timer (omega arith) timer-IsScheduled

timer_watch_lem_example : Watched 3 watching 6 (timer_watch 3 watching 6)
timer_watch_lem_example = timer_watch_lem 3 watching 6 (λ k. omega arith) timer-IsWatched
