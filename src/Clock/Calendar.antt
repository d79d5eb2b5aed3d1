-- ===== src/Clock/Calendar.antt =====
-- The calendar of the years 2001 to 2099, which src/kernel/clock.c keeps: each fourth year is a leap
-- year. Years count from 2000.
use brainix_old.Base.{
  ℕ, zero, suc, ◌+◌, ◌%◌, ◌≤◌, ◌<◌, ◌≡◌, refl, true, false, ◌||◌, ◌==◌, ltb, if◌then◌else◌, arith,
  Bool-cases, inl, inr,
}
use brainix_old.Clock.{Date, last_day, next_month}
use brainix_old.Clock.Days.{next_day, after_days}

-- Thirty days have April, June, September and November.
abbrev pub length_of : (month year : ℕ) → ℕ
length_of month year =
    if month == 2
    then (if year % 4 == 0 then 29 else 28)
    else if (month == 4) || (month == 6) || (month == 9) || (month == 11)
    then 30
    else 31

-- The date of the day after.
abbrev pub next_date : Date → Date
next_date d =
    if ltb d.day (length_of d.month d.of_year)
    then record d { day = d.day + 1 }
    else if d.month == 12
    then record { month = 1; day = 1; of_year = d.of_year + 1 }
    else record { month = d.month + 1; day = 1; of_year = d.of_year }

abbrev pub later : ℕ → Date → Date
later zero d = d
later (suc n) d = later n (next_date d)

abbrev pub IsMonth : ℕ → Type 0
IsMonth m = (1 ≤ m) × (m ≤ 12)

pub last_day-length_of : (m y : ℕ) → IsMonth m → 1 ≤ y → y < 100 → last_day m y ≡ length_of m y
unfolding last_day
last_day-length_of m y h lo hi = ground arith

next_date-year : (d : Date) → d.of_year ≤ (next_date d).of_year
next_date-year d = ground arith

pub later-year : (n : ℕ) (d : Date) → d.of_year ≤ (later n d).of_year
later-year zero d = omega arith
later-year (suc n) d = omega (arith, later-year n (next_date d), next_date-year d)

next_date-IsMonth : (d : Date) → IsMonth d.month → IsMonth (next_date d).month
next_date-IsMonth d h = ground arith

next_day-next_date :
    (d : Date) → IsMonth d.month → 1 ≤ d.of_year → d.of_year < 100 → next_day d ≡ next_date d
unfolding next_day next_month
next_day-next_date d h lo hi =
    rw (last_day-length_of d.month d.of_year h lo hi)
      (elim (Bool-cases (ltb d.day (length_of d.month d.of_year))) [
        | inl e ↦ rw e refl
        | inr e ↦ rw e (elim (Bool-cases (d.month == 12)) [
          | inl q ↦ let past : ltb 12 (d.month + 1) ≡ true = ground arith in rw (q, past) refl
          | inr q ↦ let within : ltb 12 (d.month + 1) ≡ false = ground arith in rw (q, within) refl
        ])
      ])

-- Up to 2099 the days that pass are those of the calendar.
pub after_days-later :
    (n : ℕ) (d : Date)
    → IsMonth d.month
    → 1 ≤ d.of_year
    → (later n d).of_year < 100
    → after_days n d ≡ later n d
unfolding after_days
after_days-later zero d h lo hi = refl
after_days-later (suc n) d h lo hi =
    let y = next_date-year d in
    let z = later-year n (next_date d) in
    rw (next_day-next_date d h lo (omega arith))
      (after_days-later n (next_date d) (next_date-IsMonth d h) (omega arith) hi)
