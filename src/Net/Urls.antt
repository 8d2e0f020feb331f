-- ===== src/Net/Urls.antt =====
-- net/url.cpp: `url_encode_path`, used by the forwarder and by `ftc`.
use ot_sec_file_transfer.Base.{
  ℕ, ◌/◌, ◌%◌, Bool, ◌&&◌, ◌||◌, [], ◌∷◌, if◌then◌else◌, Text, codes, leb, ◌==◌,
}
use ot_sec_file_transfer.Common.Bytes.{char_at}

abbrev pub upper_hex : Text
upper_hex = codes "0123456789ABCDEF"

unfoldable pub keeps : ℕ → Bool
keeps u =
    leb b'a' u && leb u b'z'
    || leb b'A' u && leb u b'Z'
    || leb b'0' u && leb u b'9'
    || u == b'-'
    || u == b'.'
    || u == b'_'
    || u == b'~'
    || u == b'/'

unfoldable pub url_encode_path : Text → Text
url_encode_path [] = []
url_encode_path (u ∷ path) =
    let rest = url_encode_path path in
    if keeps u
    then u ∷ rest
    else b'%' ∷ char_at upper_hex (u / 16) ∷ char_at upper_hex (u % 16) ∷ rest
