-- ===== src/Clock.antt =====
-- The clock: the calendar of src/kernel/clock.c. The array `cmos` is a function from the indices
-- SEC to YEAR; YEAR counts from 2000, MON and MDAY from 1, and WDAY is at least 1. Reading and
-- writing the hardware's registers is left out. The values are those of a date from 2000 to 2099.
pub mod Bcd
pub mod Calendar
pub mod Days
pub mod Passed
mod Tests
use brainix_old.Base.{
  ℕ, zero, suc, ◌+◌, ◌-◌, ◌*◌, ◌/◌, ◌%◌, ◌^◌, Bool, true, false, ◌&&◌, not, Option, none, some, ltb,
  leb, ◌==◌, if◌then◌else◌, update,
}

abbrev pub sec : ℕ
sec = 0

abbrev pub min : ℕ
min = 2

abbrev pub hour : ℕ
hour = 4

abbrev pub wday : ℕ
wday = 6

abbrev pub mday : ℕ
mday = 7

abbrev pub mon : ℕ
mon = 8

abbrev pub year : ℕ
year = 9

pub record Clock : Type 0 where
  pub cmos : ℕ → ℕ
  pub secs_since_epoch : ℕ
  pub dirty : Bool

unfoldable pub bcd_to_bin : ℕ → ℕ
bcd_to_bin bcd = (bcd / 16 * 10 + bcd % 16) % 256

-- The two parts of the disjunction share no bit.
unfoldable pub bin_to_bcd : ℕ → ℕ
bin_to_bcd bin = (bin / 10 * 16 + bin % 10) % 256

-- Both arguments are unsigned char.
unfoldable pub last_day : (mon year : ℕ) → ℕ
last_day m y =
    let mon = m % 256 in
    let year = y % 256 in
    if (mon == 2) && (year % 4 == 0) && not (year % 400 == 0)
    then 29
    else if (mon == 1)
    then 31
    else if (mon == 2)
    then 28
    else if (mon == 3)
    then 31
    else if (mon == 4)
    then 30
    else if (mon == 5)
    then 31
    else if (mon == 6)
    then 30
    else if (mon == 7)
    then 31
    else if (mon == 8)
    then 31
    else if (mon == 9)
    then 30
    else if (mon == 10)
    then 31
    else if (mon == 11)
    then 30
    else if (mon == 12)
    then 31
    else 29

-- The days of the months before the n-th, from month k on; an unsigned short that starts at -1.
months : (cmos : ℕ → ℕ) → (k n : ℕ) → ℕ → ℕ
months cmos k zero yday = yday
months cmos k (suc n) yday = months cmos (k + 1) n ((yday + last_day k (cmos year)) % 2 ^ 16)

-- `year` is an unsigned char; the sum is that of a 32-bit word.
unfoldable pub calc_secs_since_epoch : Clock → Clock
unfolding months
calc_secs_since_epoch c =
    let yday = (months c.cmos 1 (c.cmos mon - 1) (2 ^ 16 - 1) + c.cmos mday) % 2 ^ 16 in
    let y = (c.cmos year + 100) % 256 in
    record c {
      secs_since_epoch =
          (c.cmos sec
            + c.cmos min * 60
            + c.cmos hour * 3600
            + yday * 86400
            + (y - 70) * 86400 * 365
            + (y - 69) / 4 * 86400
            - (y - 1) / 100 * 86400
            + (y + 299) / 400 * 86400)
          % 2 ^ 32;
    }

-- The lines of `cmos_update_time` for one unit: the value, and what is left for the next unit.
pub carry : (m value pending : ℕ) → ℕ × ℕ
carry m value pending =
    let v = value + pending % m in if leb m v then (v - m, pending / m + 1) else (v, pending / m)

pub record Date : Type 0 where
  pub month : ℕ
  pub day : ℕ
  pub of_year : ℕ

-- The month after, on its first day.
pub next_month : Date → Date
next_month d =
    if ltb 12 (d.month + 1)
    then record { month = 1; day = 1; of_year = d.of_year + 1 }
    else record { month = d.month + 1; day = 1; of_year = d.of_year }

-- The while loop and the line behind it.
unfoldable pub add_days : (fuel : ℕ) → Date → (pending : ℕ) → Option Date
unfolding next_month
add_days zero d pending = none
add_days (suc fuel) d pending =
    let last = last_day d.month d.of_year in
    let rest = add_days fuel (next_month d) (pending - (last - d.day + 1)) in
    if ltb last (d.day + pending) then rest else some (record d { day = d.day + pending })

abbrev pub date : (ℕ → ℕ) → Date
date cmos = record { month = cmos mon; day = cmos mday; of_year = cmos year }

-- `cmos` with the time of day, the day of the week and the date.
abbrev set_cmos : (ℕ → ℕ) → (s m h w : ℕ) → Date → ℕ → ℕ
set_cmos cmos s m h w d =
    update
      (update (update (update (update (update (update cmos sec s) min m) hour h) wday w) mday d.day)
        mon d.month)
      year d.of_year

-- The clock with the new values, if the loop over the months has ended.
pub written : Clock → (pending s m h w : ℕ) → Option Date → Option Clock
written c pending s m h w none = none
written c pending s m h w (some d) = some (record c {
  cmos = set_cmos c.cmos s m h w d;
  secs_since_epoch = (c.secs_since_epoch + pending) % 2 ^ 32;
})

-- One more round than there are days is enough for the loop.
unfoldable pub cmos_update_time : Clock → (pending : ℕ) → Option Clock
unfolding carry add_days written
cmos_update_time c pending =
    let s = carry 60 (c.cmos sec) pending in
    let m = carry 60 (c.cmos min) s.1 in
    let h = carry 24 (c.cmos hour) m.1 in
    let w = (c.cmos wday - 1 + h.1) % 7 + 1 in
    written c pending s.0 m.0 h.0 w (add_days (suc h.1) (date c.cmos) h.1)

unfoldable pub cmos_get_info : Clock → ℕ → ℕ
cmos_get_info c addr = c.cmos addr % 256

unfoldable pub cmos_set_info : Clock → (value addr : ℕ) → Clock
cmos_set_info c value addr =
    record (calc_secs_since_epoch (record c { cmos = update c.cmos addr value })) { dirty = true }
