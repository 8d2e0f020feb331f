-- ===== src/Common/Numbers.antt =====
-- `std::from_chars` on a whole text, for an unsigned type, which the standard library documents: decimal
-- digits alone, at least one, and a value that the type holds.
pub mod RoundTrip
use ot_sec_file_transfer.Base.{
  ℕ, ◌+◌, ◌*◌, ◌-◌, Bool, ◌&&◌, Option, some, none, [], ◌∷◌, if◌then◌else◌, Text, leb, ltb,
  is_empty,
}

unfoldable pub value_of : ℕ → Text → Option ℕ
value_of n [] = some n
value_of n (c ∷ text) =
    let rest = value_of (n * 10 + (c - 48)) text in if leb 48 c && leb c 57 then rest else none

abbrev pub below : ℕ → Option ℕ → Option ℕ
below bound none = none
below bound (some n) = if ltb n bound then some n else none

unfoldable pub from_chars : ℕ → Text → Option ℕ
unfolding value_of
from_chars bound text = if is_empty text then none else below bound (value_of 0 text)
