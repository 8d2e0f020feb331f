-- ===== src/Common/Base64.antt =====
-- common/base64.cpp.
pub mod RoundTrip
use ot_sec_file_transfer.Base.{
  ℕ, ◌+◌, ◌-◌, ◌*◌, ◌/◌, ◌%◌, ◌^◌, Bool, true, false, not, ◌&&◌, ◌||◌, List, [], ◌∷◌, ◌++◌, Option,
  none, some, if◌then◌else◌, Text, codes, ltb, leb, ◌==◌, length, Result, ok, err, validation,
  ◌>>=◌, ◌>>◌, fail_if, or_fail, is_empty,
}
use ot_sec_file_transfer.Common.Bytes.{char_at}

abbrev pub alphabet : Text
alphabet = codes "ABCDEFGHIJKLMNOPQRSTUVWXYZabcdefghijklmnopqrstuvwxyz0123456789+/"

-- `none` where the code returns -1.
unfoldable pub digit : ℕ → Option ℕ
digit c =
    if leb b'A' c && leb c b'Z'
    then some (c - b'A')
    else (if leb b'a' c && leb c b'z'
        then some (c - b'a' + 26)
        else (if leb b'0' c && leb c b'9'
            then some (c - b'0' + 52)
            else (if c == b'+' then some 62 else (if c == b'/' then some 63 else none))))

-- Digit `k` of a group of 24 bits: `kAlphabet[(group >> (18 - 6 * k)) & 0x3F]`.
unfoldable pub group_digit : ℕ → ℕ → ℕ
group_digit group shift = char_at alphabet (group / 2 ^ shift % 64)

-- One round of the loop takes up to three bytes; `n` bytes give `n + 1` digits.
unfoldable pub base64_encode : List ℕ → Text
base64_encode [] = []
base64_encode (a ∷ []) =
    let group = a * 65536 in group_digit group 18 ∷ group_digit group 12 ∷ b'=' ∷ b'=' ∷ []
base64_encode (a ∷ b ∷ []) =
    let group = (a * 256 + b) * 256 in
    group_digit group 18 ∷ group_digit group 12 ∷ group_digit group 6 ∷ b'=' ∷ []
base64_encode (a ∷ b ∷ c ∷ rest) =
    let group = (a * 256 + b) * 256 + c in
    group_digit group 18
    ∷ group_digit group 12
    ∷ group_digit group 6
    ∷ group_digit group 0
    ∷ base64_encode rest

-- The inner loop of `base64_decode` at index `k`, on the group and the padding so far.
unfoldable pub take_digit : Bool → ℕ → ℕ → ℕ × ℕ → Result (ℕ × ℕ)
take_digit last k c (group, pad) =
    if c == b'='
    then (if not last || ltb k 2 then err validation else ok (group * 64, pad + 1))
    else elim (digit c) [
      | none ↦ err validation
      | some d ↦ if ltb 0 pad then err validation else ok (group * 64 + d, pad)
    ]

-- The bytes of a group: `3 - pad` of them.
unfoldable pub group_bytes : ℕ → ℕ → List ℕ
group_bytes group pad =
    if pad == 0
    then group / 65536 % 256 ∷ group / 256 % 256 ∷ group % 256 ∷ []
    else (if pad == 1
        then group / 65536 % 256 ∷ group / 256 % 256 ∷ []
        else group / 65536 % 256 ∷ [])

unfoldable pub decode_group : Bool → ℕ → ℕ → ℕ → ℕ → Result (List ℕ)
decode_group last c0 c1 c2 c3 = do
  s0 ← take_digit last 0 c0 (0, 0)
  s1 ← take_digit last 1 c1 s0
  s2 ← take_digit last 2 c2 s1
  s3 ← take_digit last 3 c3 s2
  ok (group_bytes s3.0 s3.1)

-- The outer loop, over a text whose length is a multiple of 4.
unfoldable pub decode_groups : Text → Result (List ℕ)
decode_groups [] = ok []
decode_groups (c0 ∷ c1 ∷ c2 ∷ c3 ∷ rest) = do
  bytes ← decode_group (is_empty rest) c0 c1 c2 c3
  others ← decode_groups rest
  ok (bytes ++ others)
decode_groups _ = err validation

unfoldable pub base64_decode : Text → Result (List ℕ)
base64_decode text = do fail_if (not (length text % 4 == 0)) validation; decode_groups text
