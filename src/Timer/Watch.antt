-- ===== src/Timer/Watch.antt =====
-- Setting an alarm: timer_watch of src/kernel/timer.c.
use brainix_old.Base.{
  ℕ, ◌+◌, ◌*◌, ◌%◌, ◌^◌, ◌<◌, ◌≡◌, refl, ap, ◌∙◌, Bool, Option, none, some, List, [], ◌∷◌, ◌==◌,
  if◌then◌else◌, arith, Bool-cases, inl, inr,
}
use brainix_old.Domino.{Rallies, rally_destroy}
use brainix_old.Message.{Mail, msg_free, take_out}
use brainix_old.Timer.{Timer, Alarm, timer_watch, take_first, same_alarm, free_old, insert}
use brainix_old.Timer.Sorted.{
  due, IsTimed, others, others-IsTimed, due-others_self, due-others_other, insert-IsTimed,
  due-insert,
}
use brainix_old.Timer.Sound.{ring_at}

-- Whom a message is for and which of its alarms it is, in one number: `type` is an unsigned char.
abbrev pub request : Timer → ℕ → ℕ
request t m = (t.mail.msg m).to * 256 + (t.args m).type

abbrev pub kind : Timer → Alarm → ℕ
kind t a = request t a.msg

abbrev pub IsWatched : Timer → Type 0
IsWatched t = IsTimed ring_at (kind t) t.next_alarm

-- When the alarm that a request stands for sounds.
abbrev pub alarm_at : Timer → ℕ → Option ℕ
alarm_at t k = due ring_at (kind t) k t.next_alarm

take_first-same :
    {E : Type 0} (f g : E → Bool) (xs : List E)
    → ((x : E) → f x ≡ g x)
    → take_first f xs ≡ take_first g xs
unfolding take_first
take_first-same f g [] h = refl
take_first-same f g (x ∷ xs) h = rw (h x, take_first-same f g xs h) refl

module _ (fuel : ℕ) (t : Timer) (m : ℕ) where
  -- What the search in the list of alarms finds.
  abbrev pub old : Option Alarm
  old = (take_first (same_alarm t m) t.next_alarm).0

  pub Watched : Option Timer → Type 0
  Watched none = free_old fuel t.mail old ≡ none
  Watched (some t') =
      IsWatched t'
      × ((k : ℕ)
          → alarm_at t' k ≡ (
              if request t m == k
              then some ((t.uptime + (t.args m).ticks) % 2 ^ 32)
              else alarm_at t k))

  SameMsg : Option Mail → Type 0
  SameMsg none = Unit {0}
  SameMsg (some s) = s.msg ≡ t.mail.msg

  free_old-SameMsg : (a : Option Alarm) → SameMsg (free_old fuel t.mail a)
  unfolding SameMsg free_old msg_free take_out
  free_old-SameMsg none = refl
  free_old-SameMsg (some a) = freed (rally_destroy fuel t.mail.rallies (t.mail.msg a.msg).mid)
    where
      freed :
          (r : Option Rallies)
          → SameMsg (elim r [
            | none ↦ none
            | some r ↦ some (record (take_out t.mail (t.mail.msg a.msg).to a.msg) { rallies = r })
          ])
      freed none = tt
      freed (some r) = refl

  module _ (small : (k : ℕ) → (t.args k).type < 256) (v : IsWatched t) where
    same_alarm_lem : (a : Alarm) → same_alarm t m a ≡ (kind t a == request t m)
    unfolding same_alarm
    same_alarm_lem a = let h = small a.msg in let h' = small m in ground arith

    search_lem :
        take_first (same_alarm t m) t.next_alarm
        ≡ take_first (λ a. kind t a == request t m) t.next_alarm
    search_lem = take_first-same _ _ t.next_alarm same_alarm_lem

    abbrev new : Alarm
    new = record { uptime = (t.uptime + (t.args m).ticks) % 2 ^ 32; msg = m }

    abbrev rest : List Alarm
    rest = others ring_at (kind t) (request t m) t.next_alarm

    gone : due ring_at (kind t) (request t m) rest ≡ none
    gone = due-others_self ring_at (kind t) (request t m) t.next_alarm v.single

    alarm_at-rest :
        (k : ℕ) → due ring_at (kind t) k rest ≡ (if request t m == k then none else alarm_at t k)
    alarm_at-rest k = elim (Bool-cases (request t m == k)) [
      | inl b ↦ let same : k ≡ request t m = ground arith in rw (b, same) gone
      | inr b ↦ rw b (due-others_other ring_at (kind t) (request t m) k t.next_alarm (ground arith))
    ]

    inserted-IsTimed : IsTimed ring_at (kind t) (insert ring_at new rest)
    inserted-IsTimed =
        insert-IsTimed ring_at (kind t) new rest gone
          (others-IsTimed ring_at (kind t) (request t m) t.next_alarm v)

    alarm_at-inserted :
        (k : ℕ)
        → due ring_at (kind t) k (insert ring_at new rest)
          ≡ (if request t m == k then some new.uptime else alarm_at t k)
    alarm_at-inserted k =
        due-insert ring_at (kind t) k new rest gone ∙ ground (arith, alarm_at-rest k)

    abbrev with_alarm : Option Mail → Option Timer
    with_alarm none = none
    with_alarm (some s) = some (record t { next_alarm = insert ring_at new rest; mail = s })

    old_cases :
        (s : Option Mail) (xs : List Alarm)
        → xs ≡ rest
        → (elim s [
          | none ↦ none
          | some s ↦ some (record t { next_alarm = insert ring_at new xs; mail = s })
        ])
          ≡ with_alarm s
    old_cases none xs e = refl
    old_cases (some s) xs e = rw e refl

    timer_watch-old : timer_watch fuel t m ≡ with_alarm (free_old fuel t.mail old)
    unfolding timer_watch
    timer_watch-old =
        old_cases (free_old fuel t.mail old) (take_first (same_alarm t m) t.next_alarm).1
          (ap (λ r. r.1) search_lem)

    watched :
        (s : Option Mail)
        → SameMsg s
        → free_old fuel t.mail old ≡ s
        → Watched (timer_watch fuel t m)
    unfolding Watched SameMsg
    watched none e f = rw (timer_watch-old, f) f
    watched (some s) e f = rw (timer_watch-old, f, e) (inserted-IsTimed, alarm_at-inserted)

    -- When the alarms are sorted by time, with at most one for each receiver and type, so they are
    -- after `timer_watch`; the alarm of the message's receiver and type sounds after the ticks that
    -- it asks for, in place of an older one, and no other alarm changes. The code fails only where
    -- it frees the message of the older one.
    pub timer_watch_lem : Watched (timer_watch fuel t m)
    timer_watch_lem = watched (free_old fuel t.mail old) (free_old-SameMsg old) refl
