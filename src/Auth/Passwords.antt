-- ===== src/Auth/Passwords.antt =====
-- auth/password.hpp and password.cpp: the stored form of a password. `PKCS5_PBKDF2_HMAC` and
-- `RAND_bytes` of OpenSSL are parameters, and `CRYPTO_memcmp` is a comparison.
pub mod RoundTrip
use ot_sec_file_transfer.Base.{
  ℕ, ◌+◌, ◌^◌, Bool, true, false, not, ◌&&◌, ◌||◌, List, [], ◌∷◌, ◌++◌, Option, none, some,
  if◌then◌else◌, is_empty, length, ltb, Text, codes, same, Result, ok, err, Void, validation,
  internal, or_fail, fail_if, ◌>>=◌, ◌>>◌,
}
use ot_sec_file_transfer.Common.Base64.{base64_encode, base64_decode}
use ot_sec_file_transfer.Common.Numbers.{from_chars}
use ot_sec_file_transfer.Common.Times.{decimal}
use ot_sec_file_transfer.Api.Router.{split_on}

abbrev pub scheme : Text
scheme = codes "pbkdf2-sha256"

abbrev pub max_iterations : ℕ
max_iterations = 10000000

abbrev pub salt_bytes : ℕ
salt_bytes = 16

abbrev pub key_bytes : ℕ
key_bytes = 32

pub record PasswordHash : Type 0 where
  pub iterations : ℕ
  pub salt : List ℕ
  pub key : List ℕ

unfoldable pub check_iterations : ℕ → Void
check_iterations iterations = fail_if (ltb iterations 1 || ltb max_iterations iterations) validation

-- `parse`, from the parts between the '$'s on.
unfoldable pub parse_parts : List Text → Result PasswordHash
parse_parts (name ∷ count ∷ salt_text ∷ key_text ∷ []) = do
  fail_if (not (same name scheme)) validation
  iterations ← or_fail (from_chars (2 ^ 32) count) validation
  check_iterations iterations
  salt ← base64_decode salt_text
  key ← base64_decode key_text
  fail_if (is_empty salt || is_empty key) validation
  ok (record { iterations = iterations; salt = salt; key = key })
parse_parts _ = err validation

unfoldable pub parse : Text → Result PasswordHash
unfolding parse_parts
parse text = parse_parts (split_on b'$' [] text)

unfoldable pub to_string : PasswordHash → Text
to_string h =
    scheme
    ++ (b'$'
        ∷ (decimal h.iterations ++ (b'$' ∷ (base64_encode h.salt ++ (b'$' ∷ base64_encode h.key)))))

module _ (pbkdf2 : Text → List ℕ → ℕ → ℕ → Result (List ℕ)) where
  -- `random` is what `RAND_bytes` gives.
  unfoldable pub create : Option (List ℕ) → Text → ℕ → Result PasswordHash
  create random password iterations = do
    check_iterations iterations
    salt ← or_fail random internal
    key ← pbkdf2 password salt iterations key_bytes
    ok (record { iterations = iterations; salt = salt; key = key })

  unfoldable pub verify : PasswordHash → Text → Bool
  verify h password = elim (pbkdf2 password h.salt h.iterations (length h.key)) [
    | err e ↦ false
    | ok derived ↦ same derived h.key
  ]
