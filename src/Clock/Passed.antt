-- ===== src/Clock/Passed.antt =====
-- `cmos_update_time`: the time of day and the date that it leaves.
use brainix_old.Base.{
  ℕ, suc, ◌+◌, ◌-◌, ◌*◌, ◌/◌, ◌%◌, ◌≤◌, ◌<◌, ◌≡◌, refl, ap, ◌∙◌, arith, Option, none, some,
}
use brainix_old.Clock.{
  Clock, Date, last_day, add_days, carry, cmos_update_time, written, sec, min, hour, mday, mon,
  year, wday, date,
}
use brainix_old.Clock.Calendar.{
  IsMonth, length_of, later, later-year, last_day-length_of, after_days-later,
}
use brainix_old.Clock.Days.{after_days, add_days_lem}

-- The number of seconds since midnight.
abbrev pub time_of_day : (ℕ → ℕ) → ℕ
time_of_day cmos = cmos sec + cmos min * 60 + cmos hour * 3600

abbrev Carried : (m value pending : ℕ) → ℕ × ℕ → Type 0
Carried m value pending r = (r.0 < m) × (r.0 + m * r.1 ≡ value + pending)

carry_60 : (value pending : ℕ) → value < 60 → Carried 60 value pending (carry 60 value pending)
unfolding carry
carry_60 value pending h = ground arith

carry_24 : (value pending : ℕ) → value < 24 → Carried 24 value pending (carry 24 value pending)
unfolding carry
carry_24 value pending h = ground arith

-- The units before the clock is written back.
abbrev minutes : (ℕ → ℕ) → ℕ → ℕ × ℕ
minutes cmos pending = carry 60 (cmos min) (carry 60 (cmos sec) pending).1

abbrev hours : (ℕ → ℕ) → ℕ → ℕ × ℕ
hours cmos pending = carry 24 (cmos hour) (minutes cmos pending).1

written_lem :
    (c : Clock) (pending s m h w : ℕ) (r : Option Date) (d : Date)
    → r ≡ some d
    → (t : Clock) × (written c pending s m h w r ≡ some t)
      × (t.cmos sec ≡ s)
      × (t.cmos min ≡ m)
      × (t.cmos hour ≡ h)
      × (date t.cmos ≡ d)
unfolding written
written_lem c pending s m h w none d e = absurd (cc)
written_lem c pending s m h w (some d') d e = (_, refl, refl, refl, refl, option_same d' d e)
  where
    option_same : (a b : Date) → some a ≡ some b → a ≡ b
    option_same a b q = cc

total_time :
    (s m h s' m' h' a b days pending : ℕ)
    → s' < 60
    → m' < 60
    → h' < 24
    → s' + 60 * a ≡ s + pending
    → m' + 60 * b ≡ m + a
    → h' + 24 * days ≡ h + b
    → (s' + m' * 60 + h' * 3600 ≡ (s + m * 60 + h * 3600 + pending) % 86400)
      × (days ≡ (s + m * 60 + h * 3600 + pending) / 86400)
total_time s m h s' m' h' a b days pending s60 m60 h24 es em eh = (omega arith, omega arith)

-- After the time of `pending` seconds has passed, the clock shows the time of day and the date that
-- these seconds lead to: as many days later in the calendar as whole days are in them. The update
-- ends, on every clock whose time of day is in range, whose month is from 1 to 12, whose day is in
-- its month, and whose year is 2001 or later, if the year that it comes to is 2099 or before.
pub cmos_update_time_lem :
    (c : Clock) (pending : ℕ)
    → c.cmos sec < 60
    → c.cmos min < 60
    → c.cmos hour < 24
    → IsMonth (c.cmos mon)
    → 1 ≤ c.cmos year
    → c.cmos mday ≤ length_of (c.cmos mon) (c.cmos year)
    → (later ((time_of_day c.cmos + pending) / 86400) (date c.cmos)).of_year < 100
    → let total = time_of_day c.cmos + pending in
      (t : Clock) × (cmos_update_time c pending ≡ some t)
      × (time_of_day t.cmos ≡ total % 86400)
      × (date t.cmos ≡ later (total / 86400) (date c.cmos))
unfolding cmos_update_time
cmos_update_time_lem c pending s60 m60 h24 month first in_month last =
    let total = time_of_day c.cmos + pending in
    let reach = later-year (total / 86400) (date c.cmos) in
    let day : c.cmos mday ≤ last_day (c.cmos mon) (c.cmos year) =
      rw (last_day-length_of (c.cmos mon) (c.cmos year) month first (omega arith)) in_month in
    let s = carry 60 (c.cmos sec) pending in
    let m = minutes c.cmos pending in
    let h = hours c.cmos pending in
    let cs = carry_60 (c.cmos sec) pending s60 in
    let cm = carry_60 (c.cmos min) s.1 m60 in
    let ch = carry_24 (c.cmos hour) m.1 h24 in
    let sum =
      total_time (c.cmos sec) (c.cmos min) (c.cmos hour) s.0 m.0 h.0 s.1 m.1 h.1 pending cs.0 cm.0
        ch.0 cs.1 cm.1 ch.1 in
    let days = add_days_lem (suc h.1) (date c.cmos) h.1 day (omega arith) in
    let t =
      written_lem c pending s.0 m.0 h.0 ((c.cmos wday - 1 + h.1) % 7 + 1)
        (add_days (suc h.1) (date c.cmos) h.1) (after_days h.1 (date c.cmos)) days in
    (
      t.0,
      t.1,
      rw (t.2, t.3, t.4) sum.0,
      t.5
          ∙ ap (λ n. after_days n (date c.cmos)) sum.1
          ∙ after_days-later (total / 86400) (date c.cmos) month first last,
    )
