-- ===== src/Api/Urls/RoundTrip.antt =====
-- What the clients encode the server decodes.
use ot_sec_file_transfer.Base.{
  ℕ, ◌/◌, ◌%◌, ◌<◌, ◌≡◌, ◌≢◌, refl, Bool, true, false, [], ◌∷◌, Option, none, some, arith, Text,
  ◌==◌, Every, ok, ◌>>=◌, Bool-cases, inl, inr,
}
use ot_sec_file_transfer.Common.Bytes.{IsByte, char_at, every_below, every_below_sound}
use ot_sec_file_transfer.Net.Urls.{upper_hex, keeps, url_encode_path}
use ot_sec_file_transfer.Api.Urls.{hex_value, escaped_byte, prepend, url_decode}

abbrev same_value : Option ℕ → ℕ → Bool
same_value none n = false
same_value (some m) n = m == n

value_table : every_below 16 (λ i. same_value (hex_value (char_at upper_hex i)) i) ≡ true
unfolding every_below hex_value
value_table = refl

hex_value-char_at : (i : ℕ) → i < 16 → hex_value (char_at upper_hex i) ≡ some i
hex_value-char_at i h = ground (arith, every_below_sound 16 _ i value_table h)

escaped_byte-char_at :
    (u : ℕ)
    → IsByte u
    → u ≢ 0
    → escaped_byte (char_at upper_hex (u / 16)) (char_at upper_hex (u % 16)) ≡ ok u
unfolding escaped_byte
escaped_byte-char_at u small nonzero =
    ground
      (arith, hex_value-char_at (u / 16) (omega arith), hex_value-char_at (u % 16) (omega arith))

url_decode-plain :
    (c : ℕ) (text : Text) → c ≢ b'%' → url_decode (c ∷ text) ≡ prepend c (url_decode text)
unfolding url_decode
url_decode-plain c [] h = ground arith
url_decode-plain c (x ∷ []) h = ground arith
url_decode-plain c (x ∷ y ∷ text) h = ground arith

url_decode-escape :
    (x y : ℕ) (text : Text)
    → url_decode (b'%' ∷ x ∷ y ∷ text)
      ≡ (escaped_byte x y >>= λ byte. prepend byte (url_decode text))
unfolding url_decode
url_decode-escape x y text = refl

keeps-ne-percent : (u : ℕ) → keeps u ≡ true → u ≢ b'%'
unfolding keeps
keeps-ne-percent u h = ground arith

-- The server's `url_decode` gives back any path of nonzero bytes that a client encoded.
pub url_decode-url_encode_path :
    (path : Text)
    → Every (λ u. IsByte u × (u ≢ 0)) path
    → url_decode (url_encode_path path) ≡ ok path
unfolding url_encode_path
url_decode-url_encode_path [] h = unfold url_decode in refl
url_decode-url_encode_path (u ∷ path) h = elim (Bool-cases (keeps u)) [
  | inl kept ↦ ground (
    arith,
    url_decode-plain u (url_encode_path path) (keeps-ne-percent u kept),
    url_decode-url_encode_path path h.1,
  )
  | inr escaped ↦ rw escaped (
      ground (
        arith,
        url_decode-escape (char_at upper_hex (u / 16)) (char_at upper_hex (u % 16))
            (url_encode_path path),
        escaped_byte-char_at u h.0.0 h.0.1,
        url_decode-url_encode_path path h.1,
      ))
]
