-- ===== src/Common/Times/RoundTrip.antt =====
-- The text of a time is read back as that time.
use ot_sec_file_transfer.Base.{ℕ, ◌+◌, ◌*◌, ◌/◌, ◌%◌, ◌<◌, ◌≡◌, arith, true, [], ◌∷◌, Text, ok}
use ot_sec_file_transfer.Common.Bytes.{is_ascii}
use ot_sec_file_transfer.Common.Times.{
  Date, civil_of_days, days_of_civil, is_date, format_iso8601, two_digits, is_digit, has_iso_shape,
  digits, date_at, parse_iso8601,
}
use ot_sec_file_transfer.Common.Times.Calendar.{
  days_of_civil-civil_of_days, civil_of_days-is_date, civil_of_days_bounds,
}

-- The twenty characters of a time whose year has four digits.
stamp : (y m d hour minute second : ℕ) → Text
stamp y m d hour minute second = two_digits (y / 100) (
    two_digits y (
      b'-'
      ∷ two_digits m (
          b'-'
          ∷ two_digits d (
              b'T'
              ∷ two_digits hour
                  (b':' ∷ two_digits minute (b':' ∷ two_digits second (b'Z' ∷ [])))))))

is_digit-digit : (n : ℕ) → is_digit (48 + n % 10) ≡ true
unfolding is_digit
is_digit-digit n = ground arith

stamp-shape : (y m d hour minute second : ℕ) → has_iso_shape (stamp y m d hour minute second) ≡ true
unfolding has_iso_shape stamp
stamp-shape y m d hour minute second = ground (
  arith,
  is_digit-digit (y / 100 / 10),
  is_digit-digit (y / 100),
  is_digit-digit (y / 10),
  is_digit-digit y,
  is_digit-digit (m / 10),
  is_digit-digit m,
  is_digit-digit (d / 10),
  is_digit-digit d,
  is_digit-digit (hour / 10),
  is_digit-digit hour,
  is_digit-digit (minute / 10),
  is_digit-digit minute,
  is_digit-digit (second / 10),
  is_digit-digit second,
)

stamp-fields :
    (y m d hour minute second : ℕ)
    → y < 10000
    → m < 100
    → d < 100
    → hour < 100
    → minute < 100
    → second < 100
    → (date_at (stamp y m d hour minute second) ≡ record { year = y; month = m; day = d })
      × (digits (stamp y m d hour minute second) 11 2 0 ≡ hour)
      × (digits (stamp y m d hour minute second) 14 2 0 ≡ minute)
      × (digits (stamp y m d hour minute second) 17 2 0 ≡ second)
unfolding date_at digits stamp
stamp-fields y m d hour minute second h1 h2 h3 h4 h5 h6 = ground arith

parse-stamp :
    (date : Date) (hour minute second : ℕ)
    → date.year < 10000
    → date.month < 13
    → date.day < 32
    → hour < 24
    → minute < 60
    → second < 60
    → is_date date ≡ true
    → parse_iso8601 (stamp date.year date.month date.day hour minute second)
      ≡ ok (days_of_civil date * 86400 + hour * 3600 + minute * 60 + second)
unfolding parse_iso8601
parse-stamp date hour minute second h1 h2 h3 h4 h5 h6 valid = ground (
  arith,
  stamp-shape date.year date.month date.day hour minute second,
  stamp-fields date.year date.month date.day hour minute second,
)

format-stamp :
    (t : ℕ)
    → t < 315569520000
    → format_iso8601 t
      ≡ stamp
          (civil_of_days (t / 86400)).year
          (civil_of_days (t / 86400)).month
          (civil_of_days (t / 86400)).day
          (t % 86400 / 3600)
          (t % 86400 / 60 % 60)
          (t % 86400 % 60)
unfolding format_iso8601 stamp
format-stamp t h =
    let (year, month, day) = civil_of_days_bounds (t / 86400) (omega arith) in ground arith

together :
    (t : ℕ)
    → t / 86400 * 86400 + t % 86400 / 3600 * 3600 + t % 86400 / 60 % 60 * 60 + t % 86400 % 60 ≡ t
together t = omega arith

-- A time before the year 10000 is read back from its text.
pub parse_iso8601-format_iso8601 :
    (t : ℕ) → t < 315569520000 → parse_iso8601 (format_iso8601 t) ≡ ok t
parse_iso8601-format_iso8601 t h =
    let date = civil_of_days (t / 86400) in
    let (year, month, day) = civil_of_days_bounds (t / 86400) (omega arith) in
    let parsed =
      parse-stamp date (t % 86400 / 3600) (t % 86400 / 60 % 60) (t % 86400 % 60) year month day
        (omega arith) (omega arith) (omega arith) (civil_of_days-is_date (t / 86400)) in
    rw (format-stamp t h)
      (ground (arith, parsed, days_of_civil-civil_of_days (t / 86400), together t))

pub format_iso8601-is_ascii : (t : ℕ) → t < 315569520000 → is_ascii (format_iso8601 t) ≡ true
unfolding is_ascii stamp
format_iso8601-is_ascii t h = rw (format-stamp t h) (ground arith)
