-- ===== src/Common/Ids.antt =====
-- common/id.cpp: `TransactionId::parse`. `generate` is Boost's; its result is an argument.
use ot_sec_file_transfer.Base.{
  ◌≡◌, refl, arith, true, ℕ, ◌+◌, Bool, not, ◌&&◌, ◌||◌, [], ◌∷◌, if◌then◌else◌, Text, leb, ◌==◌,
  length, Result, Void, ok, validation, ◌>>◌, fail_if,
}
use ot_sec_file_transfer.Common.Bytes.{is_ascii, char_at}

abbrev pub is_dash_pos : ℕ → Bool
is_dash_pos pos = pos == 8 || pos == 13 || pos == 18 || pos == 23

unfoldable pub is_lower_hex : ℕ → Bool
is_lower_hex c = leb b'0' c && leb c b'9' || leb b'a' c && leb c b'f'

abbrev pub fits : ℕ → ℕ → Bool
fits i c = if is_dash_pos i then c == b'-' else is_lower_hex c

-- The `for` loop from index `i` on.
unfoldable pub check_chars : Text → ℕ → Void
check_chars [] i = ok tt
check_chars (c ∷ str) i = fail_if (not (fits i c)) validation >> check_chars str (i + 1)

-- Version and variant stand at the indices 14 and 19.
unfoldable pub parse : Text → Result Text
parse str = do
  fail_if (not (length str == 36)) validation
  check_chars str 0
  let variant = char_at str 19
  fail_if
      (not (char_at str 14 == b'4')
        || not (variant == b'8')
          && not (variant == b'9')
          && not (variant == b'a')
          && not (variant == b'b'))
      validation
  ok str

check_chars-is_ascii : (str : Text) (i : ℕ) → check_chars str i ≡ ok tt → is_ascii str ≡ true
unfolding check_chars is_ascii is_lower_hex
check_chars-is_ascii [] i h = refl
check_chars-is_ascii (c ∷ str) i h = ground (arith, check_chars-is_ascii str (i + 1))

-- A transaction id is ASCII.
pub parse-is_ascii : (str id : Text) → parse str ≡ ok id → (id ≡ str) × (is_ascii id ≡ true)
unfolding parse
parse-is_ascii str id h = ground (arith, check_chars-is_ascii str 0)
