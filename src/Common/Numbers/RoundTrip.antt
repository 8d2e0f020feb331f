-- ===== src/Common/Numbers/RoundTrip.antt =====
-- A number is read back from its decimal digits.
use ot_sec_file_transfer.Base.{
  ℕ, zero, suc, ◌+◌, ◌/◌, ◌%◌, ◌<◌, ◌≡◌, arith, false, some, [], ◌∷◌, Text, is_empty,
}
use ot_sec_file_transfer.Common.Numbers.{value_of, from_chars}
use ot_sec_file_transfer.Common.Times.{decimal, decimal_from}

value_of-decimal_from :
    (fuel n : ℕ) (after : Text)
    → n < fuel
    → value_of 0 (decimal_from fuel n after) ≡ value_of n after
unfolding value_of decimal_from
value_of-decimal_from zero n after h = ground arith
value_of-decimal_from (suc fuel) n after h =
    ground (arith, value_of-decimal_from fuel (n / 10) ((48 + n % 10) ∷ after))

decimal_from_nonempty :
    (fuel n : ℕ) (after : Text) → n < fuel → is_empty (decimal_from fuel n after) ≡ false
unfolding decimal_from
decimal_from_nonempty zero n after h = ground arith
decimal_from_nonempty (suc fuel) n after h =
    ground (arith, decimal_from_nonempty fuel (n / 10) ((48 + n % 10) ∷ after))

-- The decimal form of a number that the type holds is read back as that number.
pub from_chars-decimal : (bound n : ℕ) → n < bound → from_chars bound (decimal n) ≡ some n
unfolding from_chars decimal value_of
from_chars-decimal bound n h = ground (
  arith,
  value_of-decimal_from (n + 1) n [] (omega arith),
  decimal_from_nonempty (n + 1) n [] (omega arith),
)
