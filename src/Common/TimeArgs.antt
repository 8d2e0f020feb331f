-- ===== src/Common/TimeArgs.antt =====
-- common/time.cpp: `parse_time_arg`, the times of the command line. A time before the year 0, which
-- an age may lead to, is that year here.
use ot_sec_file_transfer.Base.{
  ℕ, ◌-◌, ◌*◌, ◌^◌, ◌==◌, ◌&&◌, [], ◌∷◌, ◌++◌, Option, none, some, if◌then◌else◌, length, Text,
  codes, leb, ltb, same, Result, ok, err,
}
use ot_sec_file_transfer.Common.Numbers.{from_chars}
use ot_sec_file_transfer.Common.Times.{parse_iso8601}

-- `text.data()` up to `text.back()`, and `text.back()`.
unfoldable pub split_back : Text → Text × ℕ
split_back [] = ([], 0)
split_back (c ∷ []) = ([], c)
split_back (c ∷ d ∷ text) = (c ∷ (split_back (d ∷ text)).0, (split_back (d ∷ text)).1)

-- `std::from_chars` for a signed type, where what is read is not below zero: "-0" is.
abbrev pub natural : Text → Option ℕ
natural [] = none
natural (c ∷ text) =
    if c == b'-'
    then (elim (from_chars 1 text) [ none ↦ none | some n ↦ some n ])
    else from_chars (2 ^ 63) (c ∷ text)

abbrev pub seconds_in : ℕ → Option ℕ
seconds_in unit =
    if unit == b's'
    then some 1
    else (if unit == b'm'
        then some 60
        else (if unit == b'h'
            then some 3600
            else (if unit == b'd'
                then some 86400
                else (if unit == b'w' then some 604800 else none))))

abbrev pub before : ℕ → Option ℕ → Option ℕ → Option ℕ
before now (some n) (some seconds) = some (now - n * seconds)
before now _ _ = none

unfoldable pub age : Text → ℕ → Option ℕ
unfolding split_back from_chars
age text now =
    if ltb 1 (length text) && leb (length text) 8
    then before now (natural (split_back text).0) (seconds_in (split_back text).1)
    else none

abbrev pub aged_or_exact : Text → Option ℕ → Result ℕ
aged_or_exact text (some time) = ok time
aged_or_exact text none = parse_iso8601 text

abbrev pub day_or : Result ℕ → Result ℕ → Result ℕ
day_or (ok day) other = ok day
day_or (err e) other = other

unfoldable pub parse_time_arg : Text → ℕ → Result ℕ
unfolding age parse_iso8601 same
parse_time_arg text now =
    let other = aged_or_exact text (age text now) in
    if same text (codes "now")
    then ok now
    else (if length text == 10
        then day_or (parse_iso8601 (text ++ codes "T00:00:00Z")) other
        else other)
