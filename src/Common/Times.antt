-- ===== src/Common/Times.antt =====
-- common/time.hpp and time.cpp: the text form of times. A `Timestamp` is the number of seconds since
-- 0000-01-01T00:00:00Z, the first time that `parse_iso8601` accepts; `std::chrono` counts from 1970,
-- and the code only compares and adds.
pub mod Calendar
pub mod RoundTrip
use ot_sec_file_transfer.Base.{
  ℕ, zero, suc, ◌+◌, ◌-◌, ◌*◌, ◌/◌, ◌%◌, ◌<◌, Bool, true, false, not, ◌&&◌, ◌||◌, List, [], ◌∷◌,
  ◌++◌, if◌then◌else◌, Text, codes, ltb, leb, ◌==◌, Result, ok, err, validation,
}
use ot_sec_file_transfer.Common.Bytes.{char_at}

-- `year::is_leap`.
abbrev pub is_leap : ℕ → Bool
is_leap y = (y % 4 == 0) && (not (y % 100 == 0) || (y % 400 == 0))

unfoldable pub days_in_year : ℕ → ℕ
days_in_year y = if is_leap y then 366 else 365

-- The days of a month, counted from 0.
unfoldable pub month_length : ℕ → ℕ → ℕ
month_length y m =
    if m == 1
    then (if is_leap y then 29 else 28)
    else (if m == 3 || m == 5 || m == 8 || m == 10 then 30 else 31)

-- The days before a year, and before a month of it.
unfoldable pub before_year : ℕ → ℕ
before_year zero = 0
before_year (suc y) = before_year y + days_in_year y

unfoldable pub before_month : ℕ → ℕ → ℕ
before_month y zero = 0
before_month y (suc m) = before_month y m + month_length y m

-- The year of a day, and the day in it: from year `y` on, with as many years as there is fuel.
unfoldable pub find_year : ℕ → ℕ → ℕ → ℕ × ℕ
find_year zero y day = (y, day)
find_year (suc fuel) y day =
    let later = find_year fuel (y + 1) (day - days_in_year y) in
    if ltb day (days_in_year y) then (y, day) else later

unfoldable pub find_month : ℕ → ℕ → ℕ → ℕ → ℕ × ℕ
find_month y zero m day = (m, day)
find_month y (suc left) m day =
    let later = find_month y left (m + 1) (day - month_length y m) in
    if ltb day (month_length y m) then (m, day) else later

pub record Date : Type 0 where
  pub year : ℕ
  pub month : ℕ
  pub day : ℕ

-- The conversions between `sys_days` and `year_month_day`; month and day count from 1.
unfoldable pub civil_of_days : ℕ → Date
unfolding find_year find_month
civil_of_days n =
    let (y, in_year) = find_year (n / 365 + 1) 0 n in
    let (m, in_month) = find_month y 12 0 in_year in
    record { year = y; month = m + 1; day = in_month + 1 }

unfoldable pub days_of_civil : Date → ℕ
days_of_civil date =
    before_year date.year + before_month date.year (date.month - 1) + (date.day - 1)

-- `year_month_day::ok`, of a year that is never out of range here.
unfoldable pub is_date : Date → Bool
is_date date =
    leb 1 date.month
    && leb date.month 12
    && leb 1 date.day
    && leb date.day (month_length date.year (date.month - 1))

-- The decimal digits of a number.
unfoldable pub decimal_from : ℕ → ℕ → Text → Text
decimal_from zero n after = after
decimal_from (suc fuel) n after =
    let more = decimal_from fuel (n / 10) ((48 + n % 10) ∷ after) in
    if ltb n 10 then (48 + n) ∷ after else more

unfoldable pub decimal : ℕ → Text
unfolding decimal_from
decimal n = decimal_from (n + 1) n []

abbrev pub two_digits : ℕ → Text → Text
two_digits n after = (48 + n / 10 % 10) ∷ (48 + n % 10) ∷ after

-- `%Y`: at least four digits.
unfoldable pub year_text : ℕ → Text → Text
year_text y after =
    if ltb y 10000 then two_digits (y / 100) (two_digits y after) else decimal y ++ after

-- `std::format("{:%FT%TZ}", t)`
unfoldable pub format_iso8601 : ℕ → Text
unfolding year_text
format_iso8601 t =
    let date = civil_of_days (t / 86400) in
    let time = t % 86400 in
    year_text date.year (
      b'-'
      ∷ two_digits date.month (
          b'-'
          ∷ two_digits date.day (
              b'T'
              ∷ two_digits (time / 3600) (
                  b':' ∷ two_digits (time / 60 % 60) (b':' ∷ two_digits (time % 60) (b'Z' ∷ []))))))

abbrev pub iso_pattern : Text
iso_pattern = codes "dddd-dd-ddTdd:dd:ddZ"

unfoldable pub is_digit : ℕ → Bool
is_digit c = leb 48 c && leb c 57

-- The test of the lengths and the loop over the characters.
unfoldable pub has_shape : Text → Text → Bool
has_shape [] [] = true
has_shape (want ∷ pattern) (c ∷ text) =
    (if want == b'd' then is_digit c else (c == want)) && has_shape pattern text
has_shape _ _ = false

unfoldable pub has_iso_shape : Text → Bool
unfolding has_shape
has_iso_shape text = has_shape iso_pattern text

-- The loop of `digits`.
unfoldable pub digits : Text → ℕ → ℕ → ℕ → ℕ
digits text pos zero v = v
digits text pos (suc len) v = digits text (pos + 1) len (v * 10 + (char_at text pos - 48))

unfoldable pub date_at : Text → Date
unfolding digits
date_at text = record {
  year = digits text 0 4 0;
  month = digits text 5 2 0;
  day = digits text 8 2 0;
}

unfoldable pub parse_iso8601 : Text → Result ℕ
parse_iso8601 text =
    if not (has_iso_shape text)
    then err validation
    else (let date = date_at text in
        let hour = digits text 11 2 0 in
        let minute = digits text 14 2 0 in
        let second = digits text 17 2 0 in
        if not (is_date date) || ltb 23 hour || ltb 59 minute || ltb 59 second
        then err validation
        else ok (days_of_civil date * 86400 + hour * 3600 + minute * 60 + second))
