-- ===== src/Common/Times/Calendar.antt =====
-- Days and dates: the conversions are inverse to each other.
use ot_sec_file_transfer.Base.{
  ℕ, zero, suc, ◌+◌, ◌-◌, ◌*◌, ◌/◌, ◌≤◌, ◌<◌, ◌≡◌, refl, arith, true, ltb, Bool-cases, inl, inr,
}
use ot_sec_file_transfer.Common.Times.{
  days_in_year, month_length, before_year, before_month, find_year, find_month, civil_of_days,
  days_of_civil, is_date,
}

-- The days before a year, in closed form: every fourth year is a leap year, but for the centuries
-- that 400 does not divide.
pub before_year_lem :
    (y : ℕ) → before_year y + (y + 99) / 100 ≡ y * 365 + (y + 3) / 4 + (y + 399) / 400
unfolding before_year days_in_year
before_year_lem zero = refl
before_year_lem (suc y) = ground (arith, before_year_lem y)

days_in_year_bounds : (y : ℕ) → (365 ≤ days_in_year y) × (days_in_year y ≤ 366)
unfolding days_in_year
days_in_year_bounds y = ground arith

before_month_year : (y : ℕ) → before_month y 12 ≡ days_in_year y
unfolding before_month month_length days_in_year
before_month_year y = ground arith

find_year_lem :
    (fuel y day : ℕ)
    → day < fuel * 365
    → (before_year (find_year fuel y day).0 + (find_year fuel y day).1 ≡ before_year y + day)
      × ((find_year fuel y day).1 < days_in_year (find_year fuel y day).0)
unfolding find_year before_year
find_year_lem zero y day h = absurd (omega arith)
find_year_lem (suc fuel) y day h = elim (Bool-cases (ltb day (days_in_year y))) [
  | inl e ↦ ground arith
  | inr e ↦ ground (arith, days_in_year_bounds y, find_year_lem fuel (y + 1) (day - days_in_year y))
]

before_month_suc : (y m : ℕ) → before_month y (m + 1) ≡ before_month y m + month_length y m
unfolding before_month
before_month_suc y m = ground arith

find_month_lem :
    (y left m day end : ℕ)
    → end ≡ m + left
    → before_month y m + day < before_month y end
    → (before_month y (find_month y left m day).0 + (find_month y left m day).1
        ≡ before_month y m + day)
      × ((find_month y left m day).1 < month_length y (find_month y left m day).0)
      × ((find_month y left m day).0 < end)
unfolding find_month before_month
find_month_lem y zero m day end e h = let same : end ≡ m = omega (arith, e) in absurd (ground arith)
find_month_lem y (suc left) m day end e h = elim (Bool-cases (ltb day (month_length y m))) [
  | inl now ↦ ground arith
  | inr later ↦
      ground
        (arith, before_month_suc y m, find_month_lem y left (m + 1) (day - month_length y m) end)
]

-- The three parts of a date, counted from 0.
civil_parts :
    (n : ℕ)
    → (y m d : ℕ) × (civil_of_days n ≡ record { year = y; month = m + 1; day = d + 1 })
      × (before_year y + before_month y m + d ≡ n)
      × (m < 12)
      × (d < month_length y m)
unfolding civil_of_days before_year before_month
civil_parts n =
    let year = find_year (n / 365 + 1) 0 n in
    let (in_year, fits) = find_year_lem (n / 365 + 1) 0 n (omega arith) in
    let month = find_month year.0 12 0 year.1 in
    let (in_month, day, below) =
      find_month_lem year.0 12 0 year.1 12 refl (ground (arith, before_month_year year.0)) in
    (year.0, month.0, month.1, refl, ground arith, below, day)

-- Every day has a date, and the date gives the day back.
pub days_of_civil-civil_of_days : (n : ℕ) → days_of_civil (civil_of_days n) ≡ n
unfolding days_of_civil
days_of_civil-civil_of_days n =
    let (y, m, d, e, sum, below, fits) = civil_parts n in rw e (ground arith)

pub civil_of_days-is_date : (n : ℕ) → is_date (civil_of_days n) ≡ true
unfolding is_date
civil_of_days-is_date n =
    let (y, m, d, e, sum, below, fits) = civil_parts n in
    let shift : m + 1 - 1 ≡ m = omega arith in rw e (ground (arith, shift))

month_length_le : (y m : ℕ) → month_length y m ≤ 31
unfolding month_length
month_length_le y m = ground arith

-- The fields fit two digits, and four for a day before the year 10000.
pub civil_of_days_bounds :
    (n : ℕ)
    → n < 3652425
    → ((civil_of_days n).year < 10000)
      × ((civil_of_days n).month < 13)
      × ((civil_of_days n).day < 32)
civil_of_days_bounds n h =
    let (y, m, d, e, sum, below, fits) = civil_parts n in
    rw e (omega (arith, before_year_lem y), omega arith, omega (arith, month_length_le y m))
