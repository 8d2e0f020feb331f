-- ===== src/Common/Base64/RoundTrip.antt =====
-- Decoding what was encoded gives the bytes back.
use ot_sec_file_transfer.Base.{
  ℕ, ◌+◌, ◌*◌, ◌/◌, ◌%◌, ◌^◌, ◌<◌, ◌≡◌, refl, Bool, true, false, ◌&&◌, List, [], ◌∷◌, Option, none,
  some, arith, if◌then◌else◌, ltb, ◌==◌, length, Every, ok, is_empty,
}
use ot_sec_file_transfer.Common.Bytes.{IsByte, char_at, every_below, every_below_sound}
use ot_sec_file_transfer.Common.Base64.{
  alphabet, digit, group_digit, base64_encode, take_digit, group_bytes, decode_group, decode_groups,
  base64_decode,
}

abbrev same_digit : Option ℕ → ℕ → Bool
same_digit none n = false
same_digit (some m) n = m == n

digit_table :
    every_below 64 (λ i.
      same_digit (digit (char_at alphabet i)) i
      && (if char_at alphabet i == b'=' then false else true))
    ≡ true
unfolding every_below digit
digit_table = refl

digit-char_at :
    (i : ℕ)
    → i < 64
    → (digit (char_at alphabet i) ≡ some i) × ((char_at alphabet i == b'=') ≡ false)
digit-char_at i h = ground (arith, every_below_sound 64 _ i digit_table h)

take_digit-group_digit :
    (last : Bool) (k g shift group : ℕ)
    → take_digit last k (group_digit g shift) (group, 0) ≡ ok (group * 64 + g / 2 ^ shift % 64, 0)
unfolding take_digit group_digit
take_digit-group_digit last k g shift group =
    ground (arith, digit-char_at (g / 2 ^ shift % 64) (omega arith))

take_digit-padding :
    (k group pad : ℕ)
    → (ltb k 2 ≡ false)
    → take_digit true k b'=' (group, pad) ≡ ok (group * 64, pad + 1)
unfolding take_digit
take_digit-padding k group pad h = ground arith

-- Four digits of six bits are the 24 bits of their group.
regroup :
    (g : ℕ)
    → g < 16777216
    → (((0 * 64 + g / 2 ^ 18 % 64) * 64 + g / 2 ^ 12 % 64) * 64 + g / 2 ^ 6 % 64) * 64
        + g / 2 ^ 0 % 64
      ≡ g
regroup g h = omega arith

decode_group_full :
    (last : Bool) (a b c : ℕ)
    → IsByte a
    → IsByte b
    → IsByte c
    → let g = (a * 256 + b) * 256 + c in
      decode_group last (group_digit g 18) (group_digit g 12) (group_digit g 6) (group_digit g 0)
      ≡ ok (a ∷ b ∷ c ∷ [])
unfolding decode_group group_bytes
decode_group_full last a b c ha hb hc =
    simp (take_digit-group_digit) (ground (arith, regroup ((a * 256 + b) * 256 + c)))

decode_group_two :
    (a b : ℕ)
    → IsByte a
    → IsByte b
    → let g = (a * 256 + b) * 256 in
      decode_group true (group_digit g 18) (group_digit g 12) (group_digit g 6) b'='
      ≡ ok (a ∷ b ∷ [])
unfolding decode_group group_bytes
decode_group_two a b ha hb = simp (take_digit-group_digit, take_digit-padding) (ground arith)

decode_group_one :
    (a : ℕ)
    → IsByte a
    → let g = a * 65536 in
      decode_group true (group_digit g 18) (group_digit g 12) b'=' b'=' ≡ ok (a ∷ [])
unfolding decode_group group_bytes
decode_group_one a ha = simp (take_digit-group_digit, take_digit-padding) (ground arith)

decode_groups-base64_encode :
    (bytes : List ℕ) → Every IsByte bytes → decode_groups (base64_encode bytes) ≡ ok bytes
unfolding decode_groups base64_encode
decode_groups-base64_encode [] h = refl
decode_groups-base64_encode (a ∷ []) h = rw (decode_group_one a h.0)
decode_groups-base64_encode (a ∷ b ∷ []) h = rw (decode_group_two a b h.0 h.1.0)
decode_groups-base64_encode (a ∷ b ∷ c ∷ rest) h = rw (
  decode_group_full (is_empty (base64_encode rest)) a b c h.0 h.1.0 h.1.1.0,
  decode_groups-base64_encode rest h.1.1.1,
)

-- `n` bytes take `(n + 2) / 3 * 4` characters, the size that the code reserves.
pub length-base64_encode :
    (bytes : List ℕ) → length (base64_encode bytes) ≡ (length bytes + 2) / 3 * 4
unfolding base64_encode
length-base64_encode [] = refl
length-base64_encode (a ∷ []) = refl
length-base64_encode (a ∷ b ∷ []) = refl
length-base64_encode (a ∷ b ∷ c ∷ rest) = omega (arith, length-base64_encode rest)

-- Decoding the base64 text of a sequence of bytes gives these bytes.
pub base64_decode-base64_encode :
    (bytes : List ℕ) → Every IsByte bytes → base64_decode (base64_encode bytes) ≡ ok bytes
unfolding base64_decode
base64_decode-base64_encode bytes h =
    ground (arith, length-base64_encode bytes, decode_groups-base64_encode bytes h)
