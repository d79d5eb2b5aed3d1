-- ===== src/Clock/Tests.antt =====
-- The end of 28 February 2004, and the theorems of the clock on it.
use brainix_old.Base.{◌≡◌, ◌==◌, if◌then◌else◌, arith, some, true}
use brainix_old.Clock.{Clock, cmos_update_time, date}
use brainix_old.Clock.Passed.{time_of_day, cmos_update_time_lem}

abbrev late : Clock
late = record {
  cmos = λ k.
      if k == 0
      then 59
      else if k == 2
      then 59
      else if k == 4
      then 23
      else if k == 7
      then 28
      else if k == 8
      then 2
      else if k == 9
      then 4
      else 1;
  secs_since_epoch = 0;
  dirty = true;
}

-- Two seconds later it is 29 February.
cmos_update_time_lem_example :
    (t : Clock) × (cmos_update_time late 2 ≡ some t)
    × (time_of_day t.cmos ≡ 1)
    × (date t.cmos ≡ record { month = 2; day = 29; of_year = 4 })
cmos_update_time_lem_example =
    cmos_update_time_lem late 2 (omega arith) (omega arith) (omega arith) (omega arith, omega arith)
      (omega arith) (omega arith) (omega arith)
