-- ===== src/Net/ServerUrls.antt =====
-- net/url.cpp: `ServerUrl::parse`, for the servers that the forwarder and `ftc` talk to.
use ot_sec_file_transfer.Base.{
  ℕ, ◌^◌, ◌==◌, Bool, true, false, not, ◌&&◌, ◌||◌, [], ◌∷◌, Option, none, some, if◌then◌else◌,
  is_empty, Text, codes, leb, Result, ok, err, validation,
}
use ot_sec_file_transfer.Common.Numbers.{from_chars}

pub record ServerUrl : Type 0 where
  pub tls : Bool
  pub host : Text
  pub port : Text

abbrev default_port : Text
default_port = codes "8080"

-- `text.starts_with(prefix)` and what is left of the text.
unfoldable pub strip : Text → Text → Option Text
strip [] text = some text
strip (c ∷ prefix) [] = none
strip (c ∷ prefix) (d ∷ text) = let rest = strip prefix text in if c == d then rest else none

unfoldable pub without_slash : Text → Text
without_slash [] = []
without_slash (c ∷ []) = if c == b'/' then [] else c ∷ []
without_slash (c ∷ d ∷ text) = c ∷ without_slash (d ∷ text)

unfoldable pub has_slash : Text → Bool
has_slash [] = false
has_slash (c ∷ text) = c == b'/' || has_slash text

-- `rfind(':')`: the texts before and after the last colon.
unfoldable pub split_last : Text → Option (Text × Text)
split_last [] = none
split_last (c ∷ text) = elim (split_last text) [
  | some (before, after) ↦ some (c ∷ before, after)
  | none ↦ if c == b':' then some ([], text) else none
]

abbrev pub url_of : Bool → Text → Option (Text × Text) → ServerUrl
url_of tls text none = record { tls = tls; host = text; port = default_port }
url_of tls text (some (host, port)) = record { tls = tls; host = host; port = port }

abbrev pub is_port : Option ℕ → Bool
is_port none = false
is_port (some port) = not (port == 0) && leb port 65535

abbrev pub checked : ServerUrl → Result ServerUrl
checked url =
    if is_empty url.host || not (is_port (from_chars (2 ^ 32) url.port))
    then err validation
    else ok url

abbrev pub parse_after : Bool → Text → Result ServerUrl
parse_after tls text =
    if has_slash text then err validation else checked (url_of tls text (split_last text))

abbrev pub parse_scheme : Option Text → Option Text → Result ServerUrl
parse_scheme (some text) plain = parse_after true (without_slash text)
parse_scheme none (some text) = parse_after false (without_slash text)
parse_scheme none none = err validation

unfoldable pub parse : Text → Result ServerUrl
unfolding strip without_slash has_slash split_last from_chars
parse text = parse_scheme (strip (codes "https://") text) (strip (codes "http://") text)
