-- ===== src/Clock/Days.antt =====
-- Time that passes, a day at a time.
use brainix_old.Base.{
  ℕ, zero, suc, ◌+◌, ◌-◌, ◌≤◌, ◌<◌, ◌≡◌, refl, sym, ◌∙◌, ap, true, false, ltb, if◌then◌else◌, arith,
  some, Bool-cases, inl, inr,
}
use brainix_old.Clock.{Date, last_day, next_month, add_days}

-- The day after.
unfoldable pub next_day : Date → Date
unfolding next_month
next_day d =
    if ltb d.day (last_day d.month d.of_year) then record d { day = d.day + 1 } else next_month d

unfoldable pub after_days : ℕ → Date → Date
after_days zero d = d
after_days (suc n) d = after_days n (next_day d)

last_day_bound : (m y : ℕ) → 28 ≤ last_day m y
unfolding last_day
last_day_bound m y = ground arith

after_days-within :
    (n : ℕ) (d : Date)
    → d.day + n ≤ last_day d.month d.of_year
    → after_days n d ≡ record d { day = d.day + n }
unfolding after_days next_day
after_days-within zero d h = let e : d.day + 0 ≡ d.day = omega arith in rw e refl
after_days-within (suc n) d h =
    let more : ltb d.day (last_day d.month d.of_year) ≡ true = ground arith in
    let e : d.day + 1 + n ≡ d.day + suc n = omega arith in
    rw (more, ← e) (after_days-within n (record d { day = d.day + 1 }) (omega arith))

after_days-month :
    (k n m : ℕ) (d : Date)
    → d.day + k ≡ last_day d.month d.of_year
    → m ≡ k + n
    → after_days (suc m) d ≡ after_days n (next_month d)
unfolding after_days next_day
after_days-month zero n m d h e =
    let over : ltb d.day (last_day d.month d.of_year) ≡ false = ground arith in
    let e' : m ≡ n = omega arith in rw (over, e') refl
after_days-month (suc k) n zero d h e = absurd (omega arith)
after_days-month (suc k) n (suc m) d h e =
    let more : ltb d.day (last_day d.month d.of_year) ≡ true = ground arith in
    rw more (after_days-month k n m (record d { day = d.day + 1 }) (omega arith) (omega arith))

first_day : (d : Date) → (next_month d).day ≡ 1
unfolding next_month
first_day d = ground arith

-- The loop of `cmos_update_time`, which goes month by month, ends, and comes to the date that
-- counting the days one by one gives, from any date whose day is in its month.
pub add_days_lem :
    (fuel : ℕ) (d : Date) (pending : ℕ)
    → d.day ≤ last_day d.month d.of_year
    → pending < fuel
    → add_days fuel d pending ≡ some (after_days pending d)
unfolding add_days
add_days_lem zero d pending h lt = absurd (omega arith)
add_days_lem (suc fuel) d pending h lt =
    let last = last_day d.month d.of_year in
    elim (Bool-cases (ltb last (d.day + pending))) [
      | inl e ↦
          let k = last - d.day in
          let n = pending - (k + 1) in
          let split : suc (k + n) ≡ pending = ground arith in
          let bound = last_day_bound (next_month d).month (next_month d).of_year in
          let first : (next_month d).day ≤ last_day (next_month d).month (next_month d).of_year =
            omega (arith, first_day d) in
          let rest = add_days_lem fuel (next_month d) n first (ground arith) in
          let month = after_days-month k n (k + n) d (ground arith) refl in
          rw e (rest ∙ ap some (sym month) ∙ rw split refl)
      | inr e ↦ rw e (ap some (sym (after_days-within pending d (ground arith))))
    ]
