-- ===== src/Common/Digest/RoundTrip.antt =====
-- A digest survives its hex form, and a hex form that is accepted names one digest.
use ot_sec_file_transfer.Base.{
  ℕ, ◌+◌, ◌*◌, ◌/◌, ◌%◌, ◌<◌, ◌≡◌, refl, Bool, true, false, List, [], ◌∷◌, Option, none, some,
  arith, Text, ◌==◌, length, ltb, Every, Result, ok, err, or_fail, ◌>>=◌, validation,
}
use ot_sec_file_transfer.Common.Bytes.{is_ascii, IsByte, char_at, every_below, every_below_sound}
use ot_sec_file_transfer.Common.Digest.{
  digest_size, hex_nibble, hex_bytes, from_hex, hex_digits, to_hex,
}

abbrev same_nibble : Option ℕ → ℕ → Bool
same_nibble none n = false
same_nibble (some m) n = m == n

nibble_table : every_below 16 (λ i. same_nibble (hex_nibble (char_at hex_digits i)) i) ≡ true
unfolding every_below hex_nibble
nibble_table = refl

hex_nibble-char_at : (i : ℕ) → i < 16 → hex_nibble (char_at hex_digits i) ≡ some i
hex_nibble-char_at i h = ground (arith, every_below_sound 16 _ i nibble_table h)

hex_bytes-to_hex : (bytes : List ℕ) → Every IsByte bytes → hex_bytes (to_hex bytes) ≡ ok bytes
unfolding hex_bytes to_hex
hex_bytes-to_hex [] h = refl
hex_bytes-to_hex (b ∷ bytes) h = ground (
  arith,
  hex_nibble-char_at (b / 16) (omega arith),
  hex_nibble-char_at (b % 16) (omega arith),
  hex_bytes-to_hex bytes h.1,
)

length-to_hex : (bytes : List ℕ) → length (to_hex bytes) ≡ length bytes * 2
unfolding to_hex
length-to_hex [] = refl
length-to_hex (b ∷ bytes) = omega (arith, length-to_hex bytes)

-- The hex form of a digest of 32 bytes is read back as that digest.
pub from_hex-to_hex :
    (bytes : List ℕ)
    → length bytes ≡ digest_size
    → Every IsByte bytes
    → from_hex (to_hex bytes) ≡ ok bytes
unfolding from_hex
from_hex-to_hex bytes size h = ground (arith, length-to_hex bytes, hex_bytes-to_hex bytes h)

hex_nibble-lt : (c n : ℕ) → hex_nibble c ≡ some n → n < 16
unfolding hex_nibble
hex_nibble-lt c n h = ground arith

hex_bytes-cons :
    (x y : ℕ) (rest : Text) (bytes : List ℕ)
    → hex_bytes (x ∷ y ∷ rest) ≡ ok bytes
    → (hi : ℕ) × (lo : ℕ) × (others : List ℕ) × (hex_nibble x ≡ some hi)
      × (hex_nibble y ≡ some lo)
      × (hex_bytes rest ≡ ok others)
      × (bytes ≡ (hi * 16 + lo) ∷ others)
unfolding hex_bytes
hex_bytes-cons x y rest bytes = go (hex_nibble x) (hex_nibble y) (hex_bytes rest)
  where
    go :
        (a b : Option ℕ) (r : Result (List ℕ))
        → (or_fail a validation >>= λ hi.
            or_fail b validation >>= λ lo. r >>= λ others. ok ((hi * 16 + lo) ∷ others))
          ≡ ok bytes
        → (hi : ℕ) × (lo : ℕ) × (others : List ℕ) × (a ≡ some hi)
          × (b ≡ some lo)
          × (r ≡ ok others)
          × (bytes ≡ (hi * 16 + lo) ∷ others)
    go none b r h = cc
    go (some hi) none r h = cc
    go (some hi) (some lo) (err e) h = cc
    go (some hi) (some lo) (ok others) h = (hi, lo, others, refl, refl, refl, cc)

hex_bytes_sound :
    (hex : Text) (bytes : List ℕ)
    → hex_bytes hex ≡ ok bytes
    → (length hex ≡ length bytes * 2) × Every IsByte bytes
unfolding hex_bytes
hex_bytes_sound [] bytes h = ground arith
hex_bytes_sound (x ∷ []) bytes h = cc
hex_bytes_sound (x ∷ y ∷ rest) bytes h =
    let (hi, lo, others, e, e', e'', shape) = hex_bytes-cons x y rest bytes h in
    let (size, small) = hex_bytes_sound rest others e'' in
    let below_hi = hex_nibble-lt x hi e in
    let below_lo = hex_nibble-lt y lo e' in rw shape (omega arith, (omega arith, small))

-- What `from_hex` accepts is always a digest: 32 bytes.
pub from_hex_sound :
    (hex : Text) (bytes : List ℕ)
    → from_hex hex ≡ ok bytes
    → (length bytes ≡ digest_size) × Every IsByte bytes
unfolding from_hex
from_hex_sound hex bytes h = ground (arith, hex_bytes_sound hex bytes)

digits_table : every_below 16 (λ n. ltb (char_at hex_digits n) 128) ≡ true
unfolding every_below
digits_table = refl

pub to_hex-is_ascii : (bytes : List ℕ) → Every IsByte bytes → is_ascii (to_hex bytes) ≡ true
unfolding to_hex is_ascii
to_hex-is_ascii [] h = refl
to_hex-is_ascii (b ∷ bytes) (h, hs) = ground (
  arith,
  to_hex-is_ascii bytes hs,
  every_below_sound 16 (λ n. ltb (char_at hex_digits n) 128) (b / 16) digits_table
      (omega (arith, h)),
  every_below_sound 16 (λ n. ltb (char_at hex_digits n) 128) (b % 16) digits_table (omega arith),
)
