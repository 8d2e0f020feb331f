-- ===== src/Tests/Codecs.antt =====
-- The codecs, the paths, the URLs and the routes.
use ot_sec_file_transfer.Base.{
  ℕ, ◌≡◌, ◌≢◌, ◌⊎◌, ◌↔◌, refl, arith, true, false, List, [], ◌∷◌, some, Text, codes, lookup, put,
  Every, ok, validation, conflict, length, same, before_first, after_first,
}
use ot_sec_file_transfer.Common.Bytes.{IsByte}
use ot_sec_file_transfer.Common.Digest.{digest_size, to_hex}
use ot_sec_file_transfer.Common.Digest.RoundTrip.{from_hex-to_hex, from_hex_sound}
use ot_sec_file_transfer.Common.Paths.{parse}
use ot_sec_file_transfer.Common.Paths.Safety.{IsSafe, parse_iff}
use ot_sec_file_transfer.Net.Urls.{url_encode_path}
use ot_sec_file_transfer.Api.Urls.{url_decode, escaped_byte, hex_value}
use ot_sec_file_transfer.Api.Urls.RoundTrip.{url_decode-url_encode_path}
use ot_sec_file_transfer.Api.Router.{
  Access, Entry, match, match_segments, decode_all, parse_pairs, parse_query, select, split_on,
  split_path,
}
use ot_sec_file_transfer.Api.Router.Matching.{
  segments_of, query_of, Answers, Explains, match-Answers, match-Explains,
}

abbrev raw : Text
raw = codes "report/a b.csv"

raw_bytes : Every (λ u. IsByte u × (u ≢ 0)) raw
raw_bytes = ground arith

raw-IsByte : Every IsByte raw
raw-IsByte = ground arith

parse_iff_example : (parse raw ≡ ok raw) ↔ ((raw ≡ raw) × IsSafe raw)
parse_iff_example = parse_iff raw raw

abbrev digest : List ℕ
digest =
    0 ∷ 17 ∷ 255 ∷ 1 ∷ 2 ∷ 3 ∷ 4 ∷ 5 ∷ 6 ∷ 7 ∷ 8 ∷ 9 ∷ 10 ∷ 11 ∷ 12 ∷ 13 ∷ 14 ∷ 15 ∷ 16 ∷ 17 ∷ 18
    ∷ 19 ∷ 20 ∷ 21 ∷ 22 ∷ 23 ∷ 24 ∷ 25 ∷ 26 ∷ 27 ∷ 28 ∷ 29 ∷ []

digest-IsByte : Every IsByte digest
digest-IsByte = ground arith

from_hex_sound_example : (length digest ≡ digest_size) × Every IsByte digest
from_hex_sound_example =
    from_hex_sound (to_hex digest) digest (from_hex-to_hex digest refl digest-IsByte)

url_decode-url_encode_path_example : url_decode (url_encode_path raw) ≡ ok raw
url_decode-url_encode_path_example = url_decode-url_encode_path raw raw_bytes

abbrev entries : List (Entry ℕ)
entries =
    record {
      route = record {
        method = 1;
        pattern = codes "/tx/{id}";
        access = Access.user;
        handler = some 7;
      };
      segments =
          record { text = codes "tx"; is_param = false; is_rest = false }
          ∷ record { text = codes "id"; is_param = true; is_rest = false }
          ∷ [];
    }
    ∷ []

abbrev target : Text
target = codes "/tx/a%20b?x=1"

routing : Unit {0}
unfolding match select match_segments decode_all parse_query parse_pairs split_path split_on
    url_decode escaped_byte hex_value before_first after_first put same lookup
routing = tt

match-Answers_example :
    (segments : List Text) × (segments_of 1 target entries ≡ ok segments)
    × Answers 1 segments (query_of 1 target entries) entries (record {
      route = record {
        method = 1;
        pattern = codes "/tx/{id}";
        access = Access.user;
        handler = some 7;
      };
      params = (codes "id", codes "a b") ∷ [];
      query = (codes "x", codes "1") ∷ [];
    })
unfolding routing
match-Answers_example =
    match-Answers 1 target entries
      (record {
        route = record {
          method = 1;
          pattern = codes "/tx/{id}";
          access = Access.user;
          handler = some 7;
        };
        params = (codes "id", codes "a b") ∷ [];
        query = (codes "x", codes "1") ∷ [];
      })
      refl

match-Explains_example :
    (conflict ≡ validation)
    ⊎ ((segments : List Text) × (segments_of 2 target entries ≡ ok segments)
        × Explains 2 segments (query_of 2 target entries) false entries conflict)
unfolding routing
match-Explains_example = match-Explains 2 target entries conflict refl
