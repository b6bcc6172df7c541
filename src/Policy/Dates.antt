-- ===== src/Policy/Dates.antt =====
-- The part of Go's `time.Date` that `ParseCalendar` of pkg/policy/policy.go relies on: a month and a
-- day out of range are carried over, and the accessors read the date that results.
use regbot.Base.{
  ltb, Bool, ◌&&◌, ◌||◌, ℕ, zero, suc, ◌+◌, ◌-◌, ◌*◌, ◌/◌, ◌%◌, ◌^◌, not, ℤ, pos, negsuc, sub_ℕ,
  ◌+ℤ◌, ◌-ℤ◌, leb, ◌==◌, if◌then◌else◌,
}
use regbot.Provider.{Time}

pub record Civil : Type 0 where
  pub year : ℤ
  pub month : ℕ
  pub day : ℕ

-- The distance of a year from the year 0, which has its remainders by 4, 100 and 400.
abbrev magnitude : ℤ → ℕ
magnitude (pos n) = n
magnitude (negsuc n) = suc n

abbrev pub is_leap : ℤ → Bool
is_leap y = let n = magnitude y in (n % 4 == 0) && (not (n % 100 == 0) || (n % 400 == 0))

-- Up to July the odd months have 31 days, from August on the even ones.
abbrev pub days_in : ℤ → ℕ → ℕ
days_in y m =
    if m == 2 then (if is_leap y then 29 else 28) else if leb m 7 then 30 + m % 2 else 31 - m % 2

abbrev next_month : ℤ → ℕ → ℤ × ℕ
next_month y m = if m == 12 then (y +ℤ pos 1, 1) else (y, m + 1)

abbrev previous_month : ℤ → ℕ → ℤ × ℕ
previous_month y m = if m == 1 then (y -ℤ pos 1, 12) else (y, m - 1)

-- Whole months are taken off a day that runs past its month, at most `fuel` of them.
carry_days : ℕ → ℤ → ℕ → ℕ → Civil
carry_days zero y m d = record { year = y; month = m; day = d }
carry_days (suc fuel) y m d =
    let (y', m') = next_month y m in
    let rest = carry_days fuel y' m' (d - days_in y m) in
    if leb d (days_in y m) then record { year = y; month = m; day = d } else rest

-- A day that lies `back` days before the first of a month is the first of it less those days.
borrow_days : ℕ → ℤ → ℕ → ℕ → Civil
borrow_days zero y m back = record { year = y; month = m; day = 1 }
borrow_days (suc fuel) y m back =
    let (y', m') = previous_month y m in
    let rest = borrow_days fuel y' m' (back - days_in y' m') in
    if ltb back (days_in y' m')
    then record { year = y'; month = m'; day = days_in y' m' - back }
    else rest

-- Month 0 is the December before, and month 13 the January after.
abbrev carry_month : ℤ → ℤ → ℤ × ℕ
carry_month y (pos zero) = (y -ℤ pos 1, 12)
carry_month y (pos (suc k)) = (y +ℤ pos (k / 12), k % 12 + 1)
carry_month y (negsuc k) = (y -ℤ pos (1 + suc k / 12), 12 - suc k % 12)

-- A month has 28 days at least, so the number of days bounds the months that are carried.
abbrev carry_day : ℤ → ℕ → ℤ → Civil
carry_day y m (pos zero) = borrow_days 1 y m 0
carry_day y m (pos (suc d)) = carry_days (suc d) y m (suc d)
carry_day y m (negsuc d) = borrow_days (suc (suc d)) y m (suc d)

-- `time.Date(year, month, day, 0, 0, 0, 0, time.UTC)`
unfoldable pub date : ℤ → ℤ → ℤ → Civil
unfolding carry_days borrow_days ◌+ℤ◌ ◌-ℤ◌
date y m d = let (y', m') = carry_month y m in carry_day y' m' d

-- Days from the first of January of the year 0 to that of a year.
abbrev pub days_to_year : ℕ → ℕ
days_to_year y = 365 * y + (y + 3) / 4 + (y + 399) / 400 - (y + 99) / 100

-- The same backwards from the year 0.
abbrev days_back : ℕ → ℕ
days_back k = 365 * k + k / 4 + k / 400 - k / 100

-- Days of a year before its month.
abbrev pub days_to_month : ℤ → ℕ → ℕ
days_to_month y zero = 0
days_to_month y (suc zero) = 0
days_to_month y (suc (suc k)) = days_in y (suc k) + days_to_month y (suc k)

abbrev pub day_ns : ℕ
day_ns = 86400 * 10 ^ 9

-- The year 0 is a leap year, and lies before the zero time.
abbrev pub year_zero : ℕ
year_zero = 366

begin : ℤ → ℕ → ℕ → Time
begin (pos y) m d =
    sub_ℕ ((days_to_year y + days_to_month (pos y) m + (d - 1)) * day_ns) (year_zero * day_ns)
begin (negsuc k) m d =
    sub_ℕ ((days_to_month (negsuc k) m + (d - 1)) * day_ns)
      ((days_back (suc k) + year_zero) * day_ns)

-- The instant at which a date begins.
unfoldable pub midnight : Civil → Time
unfolding begin
midnight c = begin c.year c.month c.day
