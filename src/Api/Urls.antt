-- ===== src/Api/Urls.antt =====
-- api/router.cpp: `url_decode`.
pub mod RoundTrip
use ot_sec_file_transfer.Base.{
  ℕ, ◌+◌, ◌-◌, ◌*◌, Bool, ◌&&◌, List, [], ◌∷◌, Option, none, some, if◌then◌else◌, Text, leb, ◌==◌,
  Result, ok, err, validation, ◌>>=◌, ◌>>◌, fail_if, or_fail,
}

-- `none` where the code returns -1.
unfoldable pub hex_value : ℕ → Option ℕ
hex_value c =
    if leb b'0' c && leb c b'9'
    then some (c - b'0')
    else (if leb b'a' c && leb c b'f'
        then some (c - b'a' + 10)
        else (if leb b'A' c && leb c b'F' then some (c - b'A' + 10) else none))

-- The byte of an escape: `validation` on a bad digit or an encoded NUL.
unfoldable pub escaped_byte : ℕ → ℕ → Result ℕ
escaped_byte h l = do
  hi ← or_fail (hex_value h) validation
  lo ← or_fail (hex_value l) validation
  fail_if (hi * 16 + lo == 0) validation
  ok (hi * 16 + lo)

abbrev pub prepend : ℕ → Result Text → Result Text
prepend c out = out >>= λ rest. ok (c ∷ rest)

unfoldable pub url_decode : Text → Result Text
url_decode [] = ok []
url_decode (c ∷ []) = if c == b'%' then err validation else ok (c ∷ [])
url_decode (c ∷ h ∷ []) =
    let rest = url_decode (h ∷ []) in if c == b'%' then err validation else prepend c rest
url_decode (c ∷ h ∷ l ∷ text) =
    let rest = url_decode (h ∷ l ∷ text) in
    let after = url_decode text in
    if c == b'%' then escaped_byte h l >>= (λ byte. prepend byte after) else prepend c rest
