-- ===== src/Common/Digest.antt =====
-- common/sha256.cpp: the hex form of a digest. The hash itself is OpenSSL's.
pub mod RoundTrip
use ot_sec_file_transfer.Base.{
  ℕ, ◌+◌, ◌-◌, ◌*◌, ◌/◌, ◌%◌, ◌^◌, Bool, true, false, not, ◌&&◌, ◌||◌, List, [], ◌∷◌, ◌++◌, Option,
  none, some, if◌then◌else◌, Text, codes, ltb, leb, ◌==◌, length, Result, ok, err, validation,
  ◌>>=◌, ◌>>◌, fail_if, or_fail,
}
use ot_sec_file_transfer.Common.Bytes.{char_at}

abbrev pub digest_size : ℕ
digest_size = 32

-- `none` where the code returns -1.
unfoldable pub hex_nibble : ℕ → Option ℕ
hex_nibble c =
    if leb b'0' c && leb c b'9'
    then some (c - b'0')
    else (if leb b'a' c && leb c b'f'
        then some (c - b'a' + 10)
        else (if leb b'A' c && leb c b'F' then some (c - b'A' + 10) else none))

-- The loop of `from_hex`, two characters to a byte.
unfoldable pub hex_bytes : Text → Result (List ℕ)
hex_bytes [] = ok []
hex_bytes (h ∷ l ∷ rest) = do
  hi ← or_fail (hex_nibble h) validation
  lo ← or_fail (hex_nibble l) validation
  others ← hex_bytes rest
  ok ((hi * 16 + lo) ∷ others)
hex_bytes _ = err validation

unfoldable pub from_hex : Text → Result (List ℕ)
from_hex hex = do fail_if (not (length hex == digest_size * 2)) validation; hex_bytes hex

abbrev pub hex_digits : Text
hex_digits = codes "0123456789abcdef"

unfoldable pub to_hex : List ℕ → Text
to_hex [] = []
to_hex (byte ∷ bytes) =
    char_at hex_digits (byte / 16) ∷ char_at hex_digits (byte % 16) ∷ to_hex bytes
